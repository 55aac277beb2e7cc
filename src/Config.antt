-- ===== src/Config.antt =====
-- params/: the checks of the configuration.
pub mod Exchanges
pub mod Unique
pub mod Lookups
pub mod Found
mod Tests
