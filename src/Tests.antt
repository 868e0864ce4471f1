-- ===== src/Tests.antt =====
-- The theorems at concrete inputs.
mod Codec
mod Slaves
mod Blocks
mod Charts
mod Bans
mod Payments
mod Links
mod Miners
mod Submits
mod Daemons
