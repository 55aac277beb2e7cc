-- ===== src/Worker.antt =====
-- worker/: the daily update of the liquidity of the exchanges.
pub mod Daily
pub mod UpToDate
mod Tests
