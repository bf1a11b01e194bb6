-- ===== src/Wue.antt =====
-- platform/linux/wue.c: the answer file of the Windows setup.
pub mod Literals
pub mod Generate
pub mod Inject
pub mod Reader
pub mod Moves
pub mod Pieces
pub mod Nesting
pub mod Orders
pub mod Target
mod Examples
