-- ===== src/Apps.antt =====
-- src/desktop/runner/apps.c: the applications and the commands that the runner offers.
pub mod Desktop
pub mod Scan
pub mod Dirs
pub mod Exec
pub mod Keep
pub mod Choice
pub mod NameKeys
pub mod Offers
pub mod Names
mod Tests
