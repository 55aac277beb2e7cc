-- ===== src/Reward.antt =====
-- mongodb/types.go: account statistics, and how a total reward is divided among them.
pub mod Divide
pub mod Rounding
pub mod Exact
pub mod Fair
pub mod Stats
pub mod Calc
pub mod Fresh
pub mod Slices
pub mod Weighted
mod Tests
