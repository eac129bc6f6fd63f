-- ===== src/Keyring.antt =====
-- keyring/keyring.go: the choice of a keyring, and what goes to it.
pub mod Types
pub mod Privs
pub mod Spec
pub mod Fs
pub mod Dispatch
