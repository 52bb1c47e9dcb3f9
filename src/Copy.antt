-- ===== src/Copy.antt =====
-- src/copy.c: the clone of a data structure by its schema.
pub mod Stack
pub mod Clone
pub mod Machine
pub mod Call
pub mod Sound
pub mod Pushed
pub mod Sequences
pub mod Values
pub mod Kept
pub mod Ranges
pub mod Numbers
