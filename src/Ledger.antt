-- ===== src/Ledger.antt =====
-- pkg/ledger: the tables, the calls on them, and what the calls guarantee.
pub mod Store
pub mod Blocks
pub mod Shares
pub mod Payments
pub mod Balances
pub mod Marks
pub mod Reports
pub mod Miners
pub mod Charts
pub mod Reads
