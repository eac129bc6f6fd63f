-- ===== src/Metadata.antt =====
-- Package metadata: the protobuf structures, their checks, and the policy ioctls.
pub mod Types
pub mod Mode
pub mod Source
pub mod Checks
pub mod Flags
pub mod Ioctl
pub mod Setting
