-- ===== src/Driver.antt =====
-- distributer/: what drives a distribution, from the options to the rewards that are sent.
pub mod Run
pub mod Setting
pub mod Dispatch
pub mod Accounts
pub mod Volume
pub mod Sent
pub mod Dispatched
pub mod Owed
pub mod Granted
pub mod VolumePaid
pub mod Balances
pub mod Liquidity
pub mod LiquidityPaid
pub mod Runner
pub mod Settle
pub mod CalcRewards
pub mod CalcSettled
pub mod FileSend
pub mod Covered
pub mod FileSent
pub mod Settled
pub mod Quiet
mod Tests
mod SettleTests
mod FileTests
