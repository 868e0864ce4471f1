-- ===== src/Master.antt =====
-- cmd/master: the packets of the slaves, the reward of a block, and the payments.
pub mod Packets
pub mod Handler
pub mod Protocol
pub mod Credit
pub mod Pplns
pub mod Stats
pub mod Seconds
pub mod Api
pub mod Window
pub mod Rewards
pub mod Transfers
pub mod Updater
pub mod Skipped
pub mod Deadlock
pub mod Settled
pub mod Withdraw
pub mod Payees
pub mod Paid
pub mod Repeat
