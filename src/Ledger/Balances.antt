-- ===== src/Ledger/Balances.antt =====
-- ledger.go: the calls on distributions and balances; and the two statements that cmd/master/master.go
-- runs on `Conn()`, on balances and pool fees.
use go_pool.Base.{ℕ, Bool, ◌&&◌, List, [], ◌∷◌, ◌++◌, Option, none, some, ◌==◌, if◌then◌else◌}
use go_pool.Base.Bytes.{Bytes, bytes_eq}
use go_pool.Ledger.Store.{Distribution, Balance, M, exec, fits}

abbrev pub same_distribution : Distribution → Distribution → Bool
same_distribution d e = (d.block_height == e.block_height) && bytes_eq d.miner_addr e.miner_addr

abbrev pub drop_distribution : Distribution → List Distribution → List Distribution
drop_distribution d [] = []
drop_distribution d (e ∷ es) =
    if same_distribution d e then drop_distribution d es else e ∷ drop_distribution d es

-- `INSERT OR REPLACE`: a block has one row for a miner, in the schema that has the table.
unfoldable pub create_distribution : Distribution → M (Option (Unit {0}))
unfolding exec
create_distribution d = exec λ s t.
    if s.has_distributions && (fits d.shares_contrib && (fits d.reward_gross && fits d.reward_net))
    then some (tt, record t { distributions = drop_distribution d t.distributions ++ (d ∷ []) })
    else none

abbrev pub for_block : ℕ → List Distribution → List Distribution
for_block height [] = []
for_block height (d ∷ ds) =
    if d.block_height == height then d ∷ for_block height ds else for_block height ds

unfoldable pub get_distributions_for_block : ℕ → M (Option (List Distribution))
unfolding exec
get_distributions_for_block height = exec λ s t.
    if s.has_distributions && fits height then some (for_block height t.distributions, t) else none

abbrev pub find_balance : ℕ → Bytes → List Balance → Balance
find_balance now addr [] = record {
  miner_addr = addr;
  balance_pending = 0;
  balance_confirmed = 0;
  total_paid = 0;
  last_updated = now;
}
find_balance now addr (b ∷ bs) = if bytes_eq b.miner_addr addr then b else find_balance now addr bs

-- A miner with no row has a zero balance, of the time of the call.
unfoldable pub get_balance : ℕ → Bytes → M (Option Balance)
unfolding exec
get_balance now addr = exec λ s t. some (find_balance now addr t.balances, t)

abbrev pub drop_balance : Bytes → List Balance → List Balance
drop_balance addr [] = []
drop_balance addr (b ∷ bs) =
    if bytes_eq b.miner_addr addr then drop_balance addr bs else b ∷ drop_balance addr bs

-- `INSERT OR REPLACE INTO balances` of master.go.
unfoldable pub store_balance : Balance → M (Option (Unit {0}))
unfolding exec
store_balance b = exec λ s t.
    if fits b.balance_pending && (fits b.balance_confirmed && fits b.total_paid)
    then some (tt, record t { balances = drop_balance b.miner_addr t.balances ++ (b ∷ []) })
    else none

-- `INSERT INTO pool_fees` of master.go.
unfoldable pub store_pool_fee : ℕ → ℕ → M (Option (Unit {0}))
unfolding exec
store_pool_fee height amount = exec λ s t.
    if s.has_pool_fees && (fits height && fits amount)
    then some (
      tt,
      record t {
        pool_fees = t.pool_fees ++ (record { block_height = height; fee_amount = amount } ∷ []);
      },
    )
    else none
