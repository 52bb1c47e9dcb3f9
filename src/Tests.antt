-- ===== src/Tests.antt =====
-- Runs of the definitions on concrete inputs, and the theorems applied to them.
pub mod Text
pub mod Integers
pub mod Events
pub mod Fields
pub mod Output
pub mod Calls
pub mod Saving
pub mod Values
pub mod Freeing
pub mod Names
pub mod Loading
pub mod Copying
