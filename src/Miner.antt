-- ===== src/Miner.antt =====
-- cmd/slave/conn.go, the connections of stratum/server.go, and the jobs of nicehash.go and slave.go:
-- the miners of a slave.
pub mod Text
pub mod Login
pub mod Conns
pub mod Queue
pub mod Monitor
pub mod State
pub mod Checks
pub mod Submit
pub mod Refresher
pub mod Order
pub mod Rows
pub mod Workers
pub mod Life
pub mod Refines
pub mod Lost
pub mod Locks
pub mod Verdict
pub mod Credit
pub mod Stall
pub mod Jobs
pub mod Notify
pub mod Nonces
pub mod Targets
