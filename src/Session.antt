-- ===== src/Session.antt =====
-- platform/linux/session.c: the session that the command line and the window drive, one module for
-- each part of the file.
pub mod State
pub mod Options
pub mod Lifecycle
pub mod Exec
pub mod Boot
pub mod Nodes
pub mod Devnode
pub mod Execute
