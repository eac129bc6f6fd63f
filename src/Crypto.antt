-- ===== src/Crypto.antt =====
-- Package crypto: keys, recovery codes, and the wrapping of keys.
pub mod Key
pub mod Reader
pub mod Base32
pub mod Recovery
pub mod Wrap
pub mod Random
pub mod Derive
