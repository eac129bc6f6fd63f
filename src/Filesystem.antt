-- ===== src/Filesystem.antt =====
-- Package filesystem: the mount table and the links between filesystems.
pub mod Escape
pub mod Clean
pub mod Split
pub mod MountInfo
pub mod Link
pub mod FindMount
pub mod MainMount
pub mod Store
pub mod Setup
pub mod Records
pub mod Layout
pub mod Policies
pub mod Protectors
pub mod Listing
