-- ===== src/Config.antt =====
-- internal/config: the configuration, its layers and its validation.
pub mod Types
pub mod Defaults
pub mod Profiles
pub mod Env
pub mod Flags
pub mod Validate
pub mod Load
pub mod Equal
mod Examples
