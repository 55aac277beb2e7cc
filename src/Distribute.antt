-- ===== src/Distribute.antt =====
-- distributer/: the search for blocks by time, the cycles, the checks of the options, and the
-- sending of rewards.
pub mod Search
pub mod FirstBlock
pub mod Cycle
pub mod CycleBounds
pub mod ByVolume
pub mod Settlement
pub mod Send
pub mod Nonces
pub mod Options
pub mod Checked
pub mod NoVolumes
pub mod Stake
mod Tests
mod OptionTests
mod VolumeTests
