-- ===== src/Receipts.antt =====
-- syncer/parsereceipt.go and exchanges.go: what the logs of a transaction's receipt lead to.
pub mod Topics
pub mod Records
pub mod Record
pub mod Parse
pub mod Logs
pub mod Counts
pub mod Saved
pub mod Indices
pub mod Rising
pub mod RisingLogs
pub mod Panics
mod Tests
