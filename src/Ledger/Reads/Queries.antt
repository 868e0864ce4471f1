-- ===== src/Ledger/Reads/Queries.antt =====
-- ledger.go: the queries only read.
use go_pool.Base.{ℕ, refl, Bool, none, some, if◌then◌else◌, length, take, map}
use go_pool.Base.Bytes.{Bytes}
use go_pool.Ledger.Store.{Tables, Schema, exec}
use go_pool.Ledger.Shares.{
  since, newest_first, of_miner, distinct, workers, miners, get_shares_in_window,
  get_miner_shares_in_window, get_active_workers, get_active_miner_count,
}
use go_pool.Ledger.Blocks.{get_blockchain_info}
use go_pool.Ledger.Balances.{get_balance, find_balance}
use go_pool.Ledger.Reports.{
  get_recent_blocks, block_info, highest_first, get_active_worker_count, worker_keys,
  get_miner_withdrawals, latest_first, withdrawals_of, count_shares, miner_workers, top_miners,
  miner_groups, worker_groups, diffs_fit, all_fit, busiest_first, heaviest_first,
}
use go_pool.Ledger.Reads.{Reads, Any, Reads-exec, IsRead-if}

Reads-query : {A : Type 0} (f : Schema → Tables → A) → Reads Any (exec λ s t. some (f s t, t))
Reads-query f = Reads-exec (λ s t. some (f s t, t)) (λ _ _. refl)

Reads-if :
    {A : Type 0} (b : Schema → Tables → Bool) (f : Schema → Tables → A)
    → Reads Any (exec λ s t. if b s t then some (f s t, t) else none)
Reads-if b f =
    Reads-exec (λ s t. if b s t then some (f s t, t) else none) (λ s t. IsRead-if t (b s t) (f s t))

pub Reads-get_balance : (now : ℕ) (addr : Bytes) → Reads Any (get_balance now addr)
unfolding get_balance
Reads-get_balance now addr = Reads-query (λ s t. find_balance now addr t.balances)

pub Reads-get_shares_in_window : (start : ℕ) → Reads Any (get_shares_in_window start)
unfolding get_shares_in_window
Reads-get_shares_in_window start = Reads-query (λ s t. newest_first (since start t.shares))

pub Reads-get_miner_shares_in_window :
    (addr : Bytes) (start : ℕ) → Reads Any (get_miner_shares_in_window addr start)
unfolding get_miner_shares_in_window
Reads-get_miner_shares_in_window addr start =
    Reads-query (λ s t. newest_first (since start (of_miner addr t.shares)))

pub Reads-get_active_workers :
    (addr : Bytes) (start : ℕ) → Reads Any (get_active_workers addr start)
unfolding get_active_workers
Reads-get_active_workers addr start =
    Reads-query (λ s t. distinct (workers (since start (of_miner addr t.shares))))

pub Reads-get_active_miner_count : (start : ℕ) → Reads Any (get_active_miner_count start)
unfolding get_active_miner_count
Reads-get_active_miner_count start =
    Reads-query (λ s t. length (distinct (miners (since start t.shares))))

pub Reads-get_active_worker_count : (start : ℕ) → Reads Any (get_active_worker_count start)
unfolding get_active_worker_count
Reads-get_active_worker_count start =
    Reads-query (λ s t. length (distinct (worker_keys (since start t.shares))))

pub Reads-get_blockchain_info : Reads Any get_blockchain_info
unfolding get_blockchain_info
Reads-get_blockchain_info = Reads-query (λ s t. t.blockchain_info)

pub Reads-get_recent_blocks : (limit : ℕ) → Reads Any (get_recent_blocks limit)
unfolding get_recent_blocks
Reads-get_recent_blocks limit =
    Reads-query (λ s t. take limit (map block_info (highest_first t.blocks_found)))

pub Reads-count_shares : (addr : Bytes) → Reads Any (count_shares addr)
unfolding count_shares
Reads-count_shares addr = Reads-query (λ s t. length (of_miner addr t.shares))

pub Reads-get_miner_withdrawals :
    (addr : Bytes) (limit : ℕ) → Reads Any (get_miner_withdrawals addr limit)
unfolding get_miner_withdrawals
Reads-get_miner_withdrawals addr limit =
    Reads-if (λ s _. s.payment_updated_at)
      (λ _ t. take limit (latest_first (withdrawals_of addr t.payments)))

pub Reads-miner_workers : (addr : Bytes) (start : ℕ) → Reads Any (miner_workers addr start)
unfolding miner_workers
Reads-miner_workers addr start =
    Reads-if (λ _ t. diffs_fit (worker_groups start (of_miner addr t.shares)))
      (λ _ t. busiest_first (worker_groups start (of_miner addr t.shares)))

pub Reads-top_miners : (start limit : ℕ) → Reads Any (top_miners start limit)
unfolding top_miners
Reads-top_miners start limit =
    Reads-if (λ _ t. all_fit (miner_groups (since start t.shares)))
      (λ _ t. take limit (heaviest_first (miner_groups (since start t.shares))))
