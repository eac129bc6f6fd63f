-- ===== src/Actions.antt =====
-- Package actions: policies, protectors and their keys, over the storage of the filesystem.
pub mod Types
pub mod Callback
pub mod Context
pub mod Policy
pub mod Protector
