-- ===== src/Save.antt =====
-- src/save.c
pub mod Sign
pub mod Style
pub mod Emitter
pub mod Scalar
pub mod Stack
pub mod Machine
pub mod Buffer
