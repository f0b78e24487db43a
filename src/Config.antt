-- ===== src/Config.antt =====
-- core/config.py and core/value.py: the configuration.
pub mod Values
pub mod Texts
pub mod Keys
pub mod Sources
pub mod Reading
pub mod Levels
pub mod Layers
mod Tests
