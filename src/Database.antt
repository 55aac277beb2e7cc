-- ===== src/Database.antt =====
-- mongodb/api.go: retries, and the adding of reward results to their collections.
pub mod Store
pub mod Insert
pub mod Results
pub mod Added
pub mod Volume
pub mod DayUpdate
pub mod DailyVolume
pub mod Tests
mod VolumeTests
