-- ===== src/Arrays/Convergence.antt =====
-- The array functions of the registry converge.
pub mod Moves
pub mod MoveRows
pub mod IdentityRows
pub mod Lists
pub mod AgainstMove
pub mod InsertRows
pub mod RemoveRows
pub mod ReplaceRows
pub mod Edits
pub mod Indices
pub mod Directions
pub mod AgainstMoveOtf
pub mod Otf
