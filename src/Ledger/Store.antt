-- ===== src/Ledger/Store.antt =====
-- pkg/ledger/models.go and schema.sql: the rows and tables; and how a call reaches the database,
-- ledger.go's connection pool and `WithTransaction`. SQLite is not part of the repository: a
-- statement is what its SQL text says, on tables that are lists, and any call may fail.
use go_pool.Base.{ℕ, ◌^◌, Bool, true, false, List, [], ◌∷◌, Option, none, some, ltb, if◌then◌else◌}
use go_pool.Base.Bytes.{Bytes}

pub data BlockStatus : Type 0 where
  pending processing completed orphaned : BlockStatus

pub record BlockFound : Type 0 where
  pub height : ℕ
  pub hash : Bytes
  pub reward_total : ℕ
  pub timestamp : ℕ
  pub found_at : ℕ
  pub processed_at : Option ℕ
  pub status : BlockStatus

pub record Share : Type 0 where
  pub block_height : Option ℕ
  pub miner_addr : Bytes
  pub worker_id : Bytes
  pub difficulty : ℕ
  pub timestamp : ℕ

-- The percentage, a float that no code reads back, is left out.
pub record Distribution : Type 0 where
  pub block_height : ℕ
  pub miner_addr : Bytes
  pub shares_contrib : ℕ
  pub reward_gross : ℕ
  pub reward_net : ℕ
  pub calculated_at : ℕ

pub data PaymentStatus : Type 0 where
  pending sent confirmed failed : PaymentStatus

pub record Payment : Type 0 where
  pub id : ℕ
  pub block_height : Option ℕ
  pub recipient_addr : Bytes
  pub amount : ℕ
  pub fee : ℕ
  pub tx_id : Option Bytes
  pub status : PaymentStatus
  pub created_at : ℕ
  pub sent_at : Option ℕ
  pub confirmed_at : Option ℕ
  pub updated_at : Option ℕ

pub record ProcessedTransfer : Type 0 where
  pub tx_id : Bytes
  pub height : ℕ
  pub amount : ℕ

pub record Balance : Type 0 where
  pub miner_addr : Bytes
  pub balance_pending : ℕ
  pub balance_confirmed : ℕ
  pub total_paid : ℕ
  pub last_updated : ℕ

pub record PoolFee : Type 0 where
  pub block_height : ℕ
  pub fee_amount : ℕ

-- The row of `blockchain_info`.
pub record BlockchainInfo : Type 0 where
  pub height : ℕ
  pub block_reward : ℕ
  pub difficulty : ℕ

-- A row of `pool_stats_history`. A column is a signed integer of 64 bits: a value from 2^63 on stands
-- for the negative number with those bits.
pub record PoolStatsRow : Type 0 where
  pub timestamp : ℕ
  pub pool_hashrate : ℕ
  pub network_hashrate : ℕ
  pub network_difficulty : ℕ
  pub connected_miners : ℕ
  pub connected_workers : ℕ
  pub round_shares : ℕ
  pub blocks_found : ℕ

-- A row of `miner_hashrate_history`; the hashrates are floats, kept as their 64 bits.
pub record HashrateRow : Type 0 where
  pub miner_addr : Bytes
  pub timestamp : ℕ
  pub hashrate_5m : ℕ
  pub hashrate_15m : ℕ
  pub hashrate_1h : ℕ
  pub worker_count : ℕ

pub record Tables : Type 0 where
  pub blocks_found : List BlockFound
  pub processed_transfers : List ProcessedTransfer
  pub shares : List Share
  pub distributions : List Distribution
  pub payments : List Payment
  pub next_payment : ℕ
  pub balances : List Balance
  pub pool_fees : List PoolFee
  pub blockchain_info : BlockchainInfo
  pub last_processed_height : ℕ
  pub pool_stats : List PoolStatsRow
  pub miner_hashrates : List HashrateRow

-- What differs between the databases that `CREATE TABLE IF NOT EXISTS` may find: whether a share may
-- have no block, whether payments have the column `updated_at`, and which tables are there.
pub record Schema : Type 0 where
  pub share_without_block : Bool
  pub payment_updated_at : Bool
  pub has_distributions : Bool
  pub has_pool_fees : Bool
  pub has_miner_history : Bool
  pub has_worker_history : Bool

-- The schema that schema.sql creates.
abbrev pub shipped : Schema
shipped = record {
  share_without_block = false;
  payment_updated_at = false;
  has_distributions = false;
  has_pool_fees = false;
  has_miner_history = false;
  has_worker_history = false;
}

-- `SetMaxOpenConns(1)`: one connection, which a transaction takes. `faults` says for the coming
-- calls whether the database fails them; behind its end none fails.
pub record Db : Type 0 where
  pub schema : Schema
  pub tables : Tables
  pub faults : List Bool
  pub taken : Bool

-- A database that fails no call, and that no transaction holds.
abbrev pub live : Schema → Tables → Db
live s t = record { schema = s; tables = t; faults = []; taken = false }

-- A call returns, or it waits for the connection for ever.
pub data Halt {ℓ} (A : Type ℓ) : Type ℓ where
  done : A → Halt A
  blocked : Halt A

abbrev pub M {ℓ} : Type ℓ → Type ℓ
M A = Db → Halt A × Db

abbrev pub pure {ℓ} : {A : Type ℓ} → A → M A
pure a db = (done a, db)

abbrev pub then_do {ℓ κ} : {A : Type ℓ} {B : Type κ} → (A → M B) → Halt A × Db → Halt B × Db
then_do f (done a, db) = f a db
then_do f (blocked, db) = (blocked, db)

infixl 5 ◌>>=◌ ◌>>◌
abbrev pub ◌>>=◌ {ℓ κ} : {A : Type ℓ} {B : Type κ} → M A → (A → M B) → M B
◌>>=◌ m f db = then_do f (m db)

abbrev pub ◌>>◌ {ℓ κ} : {A : Type ℓ} {B : Type κ} → M A → M B → M B
m >> k = m >>= λ _. k

-- What a statement does to the tables; `none` is an error of the database, as of a constraint.
abbrev pub Statement : Type 0 → Type 0
Statement A = Schema → Tables → Option (A × Tables)

abbrev pub answer {ℓ} : {A : Type ℓ} → Db → Option (A × Tables) → Halt (Option A) × Db
answer db none = (done none, db)
answer db (some (a, t)) = (done (some a), record db { tables = t })

abbrev free {ℓ} :
    {A : Type ℓ} → (Schema → Tables → Option (A × Tables)) → Bool → Db → Halt (Option A) × Db
free f true db = (blocked, db)
free f false db = elim db.faults [
  | [] ↦ answer db (f db.schema db.tables)
  | fail ∷ faults ↦
      let db' : Db = record db { faults = faults } in
      if fail then (done none, db') else answer db' (f db.schema db.tables)
]

-- One call on `l.db` or `l.readDB`, which are the same. Go's error is `none`.
unfoldable pub exec : {A : Type 0} → Statement A → M (Option A)
exec f db = free f db.taken db

abbrev rest_of : List Bool → List Bool
rest_of [] = []
rest_of (b ∷ faults) = faults

-- The deferred commit or rollback: no statement went through the transaction, so the tables stay,
-- and its own error is only logged, or assigned to `err` after the result has been set.
abbrev settle {ℓ} : {A : Type ℓ} → Halt A × Db → Halt A × Db
settle (done a, db) = (done a, record db { taken = false; faults = rest_of db.faults })
settle (blocked, db) = (blocked, db)

abbrev begun : M (Option (Unit {0})) → Option (Unit {0}) → M (Option (Unit {0}))
begun fn none db = (done none, db)
begun fn (some _) db = settle (fn (record db { taken = true }))

abbrev begin_transaction : Statement (Unit {0})
begin_transaction s t = some (tt, t)

-- `WithTransaction`: the transaction holds the connection while `fn` runs.
unfoldable pub with_transaction : M (Option (Unit {0})) → M (Option (Unit {0}))
unfolding exec
with_transaction fn = exec begin_transaction >>= begun fn

-- An argument of type uint64 from 2^63 on is refused by database/sql.
abbrev pub fits : ℕ → Bool
fits n = ltb n (2 ^ 63)
