-- ===== src/Lib.antt =====
-- A model of ANYToken distribution: a program that syncs the blocks of a chain into a database,
-- and distributes rewards to the traders and liquidity providers of exchanges.
--
-- The parts and how they interact. The syncer (syncer/) divides the missing blocks among workers,
-- and each worker passes ranges of stable blocks on; the logs of their receipts become records of
-- accounts and volumes in the database (mongodb/). The distributer (distributer/) goes through
-- cycles of blocks or timestamps, takes the statistics of the accounts of each exchange, divides
-- the reward of a cycle among them (mongodb/types.go) and sends each account its reward. What it
-- sends is written to files and to the database, and such files can be imported (cmd/distribute/).
--
-- Base: Boolean tests on the native numbers, lists, and the 64-bit operations, which wrap. Int: the
-- integers of math/big, with Euclidean division. Outcome: a result, or the panic on a nil pointer.
--
-- Reward: mongodb/types.go. Divide is DivideRewards; Stats holds AccountStat and the methods of its
-- slices, up to CalcWeightedRewards. A nil pointer is `none`. An account is given by a number. The
-- verification at the end of DivideRewards only logs, and is left out. Rounding, Exact, Fair, Calc,
-- Fresh, Slices and Weighted hold the proofs.
--
-- Syncer: syncer/sync.go. Dispatch is initConfig's job count, getStartAndLast and dipatchWork; Loop
-- is doSync. The node is a list of answers, where an error is `none`; a wait for an answer that does
-- not come leaves the loop unfinished. A worker's fuel bounds the ranges it passes on: a bounded
-- worker passes on at most as many as it has blocks, and one round more sees the end. The message
-- channels and the goroutines are left out: workers share nothing that their loops read. Range is
-- syncRange, where the answers of the database and of the node are parameters; Synced and
-- RangeSynced hold its proofs. Its fuel bounds the rounds, of which there are no more than blocks;
-- a round's own loop has fuel for the 10000 blocks of a step and one more. Work is doWork with
-- checkSync and doLoopWork, where each worker is run by itself; OnceEach and WorkDone hold its proofs.
--
-- Distribute: distributer/. Search is util.go, where the chain is a function from block numbers to
-- times, and the fuel bounds the rounds of each loop: more than the number of the highest block is
-- enough. Cycle is the runner of distribute.go, its checks and its cycles, with calcPrevCycleSttEnd
-- of byvolume.go and CalcRandomSample of byliquidity.go, whose generator is a parameter. Send is
-- sendRewardsTransaction of sendtx.go and the loop of dispatchrewards.go, which sendRewardsFromFile
-- repeats; what the node and the signer do at each account is a parameter. Options is the checks of
-- option.go, with the address library and the exchanges of the configuration as parameters.
-- NoVolumes is updateNoVolumes of option.go. Stake is checkStakeConfig of params/checkconfig.go and
-- calcAddPercentOfStaking of option.go. ByVolume is how byvolume.go divides rewards among exchanges.
--
-- Library: what the code calls of Go's library and of the SDK (texts, addresses, numbers), as
-- parameters. Sample instantiates them for runs.
--
-- Config: params/. Exchanges is checkExchangeConfig of checkconfig.go, with the address library and
-- strings.ToLower as parameters; a map is the list of its keys. Lookups is the functions of config.go
-- that look up exchanges, tokens and routers, and the exchanges that factories created.
--
-- Receipts: syncer/parsereceipt.go and exchanges.go. Topics is the switch on a log's topic; Records
-- is the records of mongodb/tables.go that the parser makes, and its state: the transaction, the
-- calls of the database in their order, and the created exchanges. Record is the functions that call
-- the database, Parse and Logs the handlers of logs and parseReceipt, which may panic. Keys of
-- records are functions of the other fields and are left out. Counts, Saved, Indices, Rising,
-- RisingLogs and Panics hold the proofs.
--
-- Volumes: from the records of the database to the accounts of an exchange. Find is
-- FindAccountVolumes of mongodb/api.go and ConvertToSortedSlice of mongodb/types.go, where the query
-- of the driver and the sort are parameters, and a map is the list of its values. Rewards is
-- GetAccountsAndRewardsFromDB of distributer/option.go, where what the node says of stakes is a
-- parameter; its fuel bounds the steps. Rearranged, Collect, Found, Paid, Merged, Steps, StepLoop and
-- Granted hold the proofs.
--
-- Files: distributer/option.go and cmd/distribute/importrewards.go. Rows is WriteSendRewardResult and
-- WriteRewardResultToDB; Lines is GetAccountsAndRewardsFromFile and GetAccountsAndSharesFromFile, and
-- Accounts is getAccountsFromFile, where a file is the list of its lines; Import is processFile with
-- verifyFile, processLine and addRewardResultToDB, where log.Fatalf is an error that ends the run.
-- ReadBack, Imported, Texts, Returned and Distinct hold the proofs.
--
-- Database: mongodb/api.go. Insert is the insertions with the keys of mongodb/tables.go, and Volume
-- is UpdateVolumeWithReceipt, with proofs in DayUpdate and DailyVolume. Store is TryDoTimes, over the results of the calls, and a collection as
-- a list of records by their keys; Results is AddVolumeRewardResult and AddLiquidRewardResult, where
-- the calls of the driver succeed. Added holds the proofs.
--
-- Abi: callapi/utils.go. Strings packs and unpacks texts, with the SDK's bytes of a number as a
-- parameter and slices that panic out of range; Unpacked and Packed hold the proofs.
--
-- Worker: worker/updateliquidity.go. Daily is updateLiquidityDailyOnce for one exchange, where what
-- updateDateLiquidity returns is a parameter; its fuel bounds the days.
--
-- Driver: distributer/, what puts the parts together. Run is how a run ends: with a value, an error, a
-- panic, or not yet; Setting is all that a run reads, with CalcRandomSampleHeight of byliquidity.go.
-- Accounts is GetAccountsAndRewards, GetAccountsAndShares and getAccounts of option.go; Dispatch is
-- dispatchRewards of dispatchrewards.go; Volume is ByVolume of byvolume.go; Balances and Liquidity are
-- byliquidity.go, where calls of the database succeed. Runner, Settle and CalcRewards are
-- distribute.go: the options of a cycle, waitCycleEnd, settleVolumeRewards and runVolumeDistribute,
-- and CalcRewards, which are dry runs; the answers of the database to a wait are a list, and the fuel
-- of a setting bounds the steps of a cycle. FileSend is SendRewardsFromFile of sendtx.go, and
-- getScalingValue of cmd/distribute/sendrewards.go. Sent, Dispatched, Owed, Granted, VolumePaid,
-- LiquidityPaid, Settled, CalcSettled, Covered and FileSent hold the proofs; Quiet is a setting for runs.
--
-- Not modelled: the remote calls of the node (callapi/), which are parameters, and single queries of
-- the database (mongodb/); the blocks and transactions around the receipts (syncer/parse.go); the
-- flags of the commands (cmd/), getting the signer ready, logging and the build scripts, which are
-- calls of libraries and I/O.
pub mod Base
pub mod Int
pub mod Outcome
pub mod Reward
pub mod Syncer
pub mod Distribute
pub mod Config
pub mod Worker
pub mod Library
pub mod Receipts
pub mod Volumes
pub mod Files
pub mod Abi
pub mod Database
pub mod Driver
