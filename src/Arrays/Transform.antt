-- ===== src/Arrays/Transform.antt =====
-- The array transformation functions (src/main/model/ot/xform/array).
pub mod Switches
pub mod AgainstMove
pub mod OfMove
pub mod Otf
pub mod Ids
pub mod KeepsIds
