-- ===== src/Mkfs.antt =====
-- platform/linux/filesystem.c: the labels that are accepted and the mkfs commands given to the
-- shell.
pub mod Commands
pub mod Shell
pub mod Quoting
pub mod Argv
mod Examples
