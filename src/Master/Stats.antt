-- ===== src/Master/Stats.antt =====
-- cmd/master/stats.go and stats_collector.go: the hashrates of a miner, and one collection for the
-- charts. An operation reads the clock once here.
pub mod Rates
pub mod Groups
pub mod Chart
use go_pool.Base.{
  ℕ, ◌+◌, ◌-◌, ◌%◌, ◌^◌, Bool, true, false, List, [], ◌∷◌, ◌++◌, Option, none, some, ltb, leb,
  if◌then◌else◌, length,
}
use go_pool.Base.Bytes.{Bytes, bytes_eq}
use go_pool.Base.Assoc.{Assoc, lookup, insert, bytes_keys}
use go_pool.Float.{Float}
use go_pool.Ledger.Store.{Share, BlockchainInfo, HashrateRow, done, M, pure, ◌>>=◌}
use go_pool.Ledger.Shares.{
  get_shares_in_window, get_miner_shares_in_window, get_active_miner_count, contains_bytes,
}
use go_pool.Ledger.Blocks.{get_blockchain_info}
use go_pool.Ledger.Reports.{BlockInfo, get_recent_blocks, get_active_worker_count}
use go_pool.Ledger.Charts.{
  PoolStats, store_pool_stats, store_miner_hashrate, cleanup_old_chart_data,
}
use go_pool.Master.Pplns.{sum_diff, or_zero}

-- `getBlocksFoundSince`
abbrev pub found_since : ℕ → List BlockInfo → List BlockInfo
found_since since [] = []
found_since since (b ∷ bs) =
    if leb since b.timestamp then b ∷ found_since since bs else found_since since bs

abbrev filtered : ℕ → Option (List BlockInfo) → Option (List BlockInfo)
filtered since none = none
filtered since (some bs) = some (found_since since bs)

unfoldable pub get_blocks_found_since : ℕ → M (Option (List BlockInfo))
get_blocks_found_since since = get_recent_blocks 1000 >>= λ blocks. pure (filtered since blocks)

-- `len` of the blocks; an error leaves the nil slice.
abbrev pub count_found : Option (List BlockInfo) → ℕ
count_found none = 0
count_found (some bs) = length bs

-- The three sums of the loop over a miner's shares.
pub record Totals : Type 0 where
  pub diff_5m : ℕ
  pub diff_15m : ℕ
  pub diff_1h : ℕ

abbrev pub no_totals : Totals
no_totals = record { diff_5m = 0; diff_15m = 0; diff_1h = 0 }

-- `total += share.Difficulty` on a uint64, under a test.
abbrev pub add_if : Bool → ℕ → ℕ → ℕ
add_if b diff total = if b then (total + diff) % 2 ^ 64 else total

-- The loop of `collectMinerStats` over one miner's shares.
unfoldable pub collect_totals : ℕ → List Share → Totals → Totals
collect_totals now [] t = t
collect_totals now (x ∷ xs) t = collect_totals now xs (record {
  diff_5m = add_if (leb (now - 300) x.timestamp) x.difficulty t.diff_5m;
  diff_15m = add_if (leb (now - 900) x.timestamp) x.difficulty t.diff_15m;
  diff_1h = add_if (leb (now - 3600) x.timestamp) x.difficulty t.diff_1h;
})

-- The keys of `workerMap`.
unfoldable pub worker_map : List Share → List Bytes → List Bytes
worker_map [] seen = seen
worker_map (x ∷ xs) seen =
    worker_map xs (if contains_bytes x.worker_id seen then seen else seen ++ (x.worker_id ∷ []))

abbrev pub or_empty : Option (List Share) → List Share
or_empty none = []
or_empty (some xs) = xs

-- `minerShares[share.MinerAddr] = append(...)`
unfoldable pub group_shares : List Share → Assoc Bytes (List Share) → Assoc Bytes (List Share)
group_shares [] m = m
group_shares (x ∷ xs) m =
    group_shares xs (insert x.miner_addr (or_empty (lookup x.miner_addr m) ++ (x ∷ [])) m)

abbrev cap : ℕ → ℕ
cap n = if ltb (2 ^ 63 - 1) n then 2 ^ 63 - 1 else n

abbrev difficulty_of : Option BlockchainInfo → ℕ
difficulty_of none = 1
difficulty_of (some info) = info.difficulty

module _ (fl : Float) where
  open fl use {F, of_nat, to_nat, div, round, bits}

  -- `float64(totalDiff) / seconds` for the sum over the shares.
  abbrev pub hashrate : ℕ → List Share → F
  hashrate seconds xs = div (of_nat (sum_diff xs 0)) (of_nat seconds)

  abbrev rounded : ℕ → Option (List Share) → F
  rounded seconds none = of_nat 0
  rounded seconds (some xs) = round (hashrate seconds xs)

  unfoldable pub get_5m_hashrate : ℕ → Bytes → M F
  get_5m_hashrate now wallet =
      get_miner_shares_in_window wallet (now - 300) >>= λ shares. pure (rounded 300 shares)

  unfoldable pub get_15m_hashrate : ℕ → Bytes → M F
  get_15m_hashrate now wallet =
      get_miner_shares_in_window wallet (now - 900) >>= λ shares. pure (rounded 900 shares)

  abbrev pub rate_row : ℕ → Bytes → Totals → ℕ → HashrateRow
  rate_row now addr t workers = record {
    miner_addr = addr;
    timestamp = now;
    hashrate_5m = bits (div (of_nat t.diff_5m) (of_nat 300));
    hashrate_15m = bits (div (of_nat t.diff_15m) (of_nat 900));
    hashrate_1h = bits (div (of_nat t.diff_1h) (of_nat 3600));
    worker_count = workers;
  }

  -- What `collectMinerStats` stores for one entry of `minerShares`.
  unfoldable pub miner_row : ℕ → Bytes × List Share → HashrateRow
  miner_row now (addr, shares) =
      rate_row now addr (collect_totals now shares no_totals) (length (worker_map shares []))

  -- An error of a row is only logged.
  unfoldable pub store_rows : ℕ → Assoc Bytes (List Share) → M (Unit {0})
  store_rows now [] db = (done tt, db)
  store_rows now (g ∷ m) db = (store_miner_hashrate (miner_row now g) >>= λ _. store_rows now m) db

  abbrev store_groups : ℕ → Option (List Share) → M (Unit {0})
  store_groups now none = pure tt
  store_groups now (some shares) = store_rows now (group_shares shares [])

  unfoldable pub collect_miner_stats : ℕ → M (Unit {0})
  collect_miner_stats now = get_shares_in_window (now - 3600) >>= store_groups now

  -- The record that `collectStats` stores, from the answers of its calls.
  abbrev pub pool_stats_of :
      ℕ
      → ℕ
      → List Share
      → Option ℕ
      → Option ℕ
      → Option BlockchainInfo
      → Option (List BlockInfo)
      → Option (List BlockInfo)
      → PoolStats
  pool_stats_of block_time now shares miners workers info blocks_1h blocks_24h = record {
    timestamp = now;
    total_hashrate = to_nat (hashrate 300 shares);
    connected_miners = or_zero miners;
    connected_workers = or_zero workers;
    blocks_found_1h = count_found blocks_1h;
    blocks_found_24h = count_found blocks_24h;
    network_difficulty = cap (difficulty_of info);
    network_hashrate = cap (to_nat (div (of_nat (difficulty_of info)) (of_nat block_time)));
  }

  abbrev pub collect_with : ℕ → ℕ → Option (List Share) → M (Unit {0})
  collect_with block_time now none = pure tt
  collect_with block_time now (some shares) = get_active_miner_count (now - 600) >>= λ miners.
      get_active_worker_count (now - 600) >>= λ workers. get_blockchain_info >>= λ info.
      get_blocks_found_since (now - 3600) >>= λ blocks_1h.
      get_blocks_found_since (now - 86400) >>= λ blocks_24h.
      store_pool_stats
        (pool_stats_of block_time now shares miners workers info blocks_1h blocks_24h)
      >>= λ _. collect_miner_stats now >>= λ _. cleanup_old_chart_data now 7 >>= λ _. pure tt

  -- `collectStats`
  unfoldable pub collect_stats : ℕ → ℕ → M (Unit {0})
  collect_stats block_time now = get_shares_in_window (now - 300) >>= collect_with block_time now

  -- `collectLoop`: a collection at the start, and one at each tick up to the stop.
  unfoldable pub collect_loop : ℕ → List ℕ → M (Unit {0})
  collect_loop block_time [] db = (done tt, db)
  collect_loop block_time (now ∷ ticks) db =
      (collect_stats block_time now >>= λ _. collect_loop block_time ticks) db
