-- ===== src/Files.antt =====
-- distributer/option.go and cmd/distribute/: files of accounts, shares and rewards, line by line.
pub mod Rows
pub mod Lines
pub mod ReadBack
pub mod Import
pub mod Imported
pub mod Texts
pub mod Returned
pub mod Accounts
pub mod Distinct
pub mod Tests
