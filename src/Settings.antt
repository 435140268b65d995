-- ===== src/Settings.antt =====
-- src/core/settings/: reading and writing the config file, without libscfg and the file itself.
pub mod Types
pub mod Word
pub mod Names
pub mod Combo
pub mod Getters
pub mod Tables
pub mod Writing
pub mod RoundTrip
pub mod Sections
pub mod Bindings
