-- ===== src/Mbr.antt =====
-- platform/linux/mbr_bootloader.c: the boot code, the boot flag and the type of an EFI partition.
-- The device is the list of its bytes; what the calls of the system answer is a `Host`.
pub mod Disk
pub mod Calls
pub mod Bootcode
pub mod Gpt
pub mod Install
pub mod Table
pub mod Sector
pub mod Patch
pub mod Installed
pub mod Entry
pub mod Fields
pub mod Untouched
mod Examples
