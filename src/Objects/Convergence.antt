-- ===== src/Objects/Convergence.antt =====
-- Where two sites meet after concurrent operations on an object
-- (src/main/model/ot/xform/object).
pub mod Edits
pub mod Sites
pub mod Properties
pub mod Meets
