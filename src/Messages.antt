-- ===== src/Messages.antt =====
-- platform/linux/error_messages.c: the table of the error codes and the functions that read it.
pub mod Entry
pub mod Device
pub mod Partition
pub mod Filesystem
pub mod Iso
pub mod Boot
pub mod Orch
pub mod Lookup
pub mod Categories
pub mod Table
mod Examples
