-- ===== src/Tests.antt =====
-- Concrete inputs at which the theorems are applied.
mod Samples
mod Crypting
mod Acting
mod Ringing
mod Checking
mod Mounting
mod Disk
mod Storing
mod Linking
mod Creating
mod Applying
mod Containing
