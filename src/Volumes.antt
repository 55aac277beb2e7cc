-- ===== src/Volumes.antt =====
-- mongodb/api.go, mongodb/types.go and distributer/option.go: the volumes of accounts, from the
-- records of the database to the rewards of an exchange.
pub mod Find
pub mod Rearranged
pub mod Collect
pub mod Found
pub mod Rewards
pub mod Paid
pub mod Merged
pub mod Steps
pub mod StepLoop
pub mod Granted
pub mod Tests
