-- ===== src/Syncer.antt =====
-- syncer/sync.go: how blocks are divided among workers, and the loops of one worker.
pub mod Dispatch
pub mod Partition
pub mod Loop
pub mod Coverage
pub mod Ending
pub mod Range
pub mod Synced
pub mod RangeSynced
pub mod Work
pub mod OnceEach
pub mod WorkDone
mod Tests
mod WorkTests
