-- ===== src/Settings.antt =====
-- platform/linux/settings.c: a store of keys and values, and its text form.
pub mod Store
pub mod Text
pub mod Numbers
pub mod Lookup
pub mod Bounds
pub mod File
mod Examples
