-- ===== src/Cli.antt =====
-- src/cli/cli.c: the command line. What it prints is left out.
pub mod Options
pub mod Prompts
pub mod Main
pub mod Consent
pub mod Flow
pub mod Given
mod Examples
