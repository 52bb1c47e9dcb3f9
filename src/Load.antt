-- ===== src/Load.antt =====
-- The parts of src/load.c.
pub mod Store
pub mod Fields
pub mod Scalar
pub mod Events
pub mod Values
pub mod Stack
pub mod Machine
