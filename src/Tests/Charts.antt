-- ===== src/Tests/Charts.antt =====
-- The statistics, the charts and the API of the master, on small inputs.
use go_pool.Base.{
  length, ◌⊎◌, ◌++◌, ℕ, suc, ◌+◌, ◌-◌, ◌/◌, ◌≡◌, refl, false, List, [], ◌∷◌, ◌++◌, none, some,
  arith, All,
}
use go_pool.Base.Bytes.{Bytes}
use go_pool.Ledger.Store.{Share, PoolStatsRow, HashrateRow, Tables, done, live, shipped, ◌>>=◌}
use go_pool.Ledger.Reports.{TempMiner, total_weight, top_miners}
use go_pool.Ledger.Reports.Groups.{sum_weight}
use go_pool.Ledger.Reports.Single.{IsGrouped}
use go_pool.Ledger.Shares.{since}
use go_pool.Ledger.Reports.Shown.{NoneHeavier, top_miners-total_weight}
use go_pool.Ledger.Charts.{
  PoolStats, stats_row, drop_time, keep_stats, store_pool_stats, get_pool_stats_history,
  get_miner_hashrate_history,
}
use go_pool.Ledger.Charts.History.{IsHistory}
use go_pool.Ledger.Charts.ReadBack.{IsOldestFirst, get_pool_stats_history-store_pool_stats}
use go_pool.Master.Pplns.{PplnsConfig}
use go_pool.Master.Stats.{
  collect_stats, collect_loop, collect_miner_stats, get_5m_hashrate, get_15m_hashrate,
}
use go_pool.Master.Stats.Groups.{store_each, IsCharted, collect_miner_stats-IsCharted}
use go_pool.Master.Stats.Chart.{IsRowOf, collect_loop-IsHistory, collect_stats-shipped}
use go_pool.Master.Api.{MinerStats, get_miner_stats}
use go_pool.Master.Api.Rates.{get_miner_stats_rates}
use go_pool.Tests.Bans.{whole}
use go_pool.Tests.Blocks.{wallet, rig, empty_tables, full}
use mathlib.Core.List.{Memᴰ}
use native.Mathlib.Nat.{zero-div}

abbrev now : ℕ
now = 700000

abbrev share_of : Bytes → ℕ → ℕ → Share
share_of addr time diff = record {
  block_height = none;
  miner_addr = addr;
  worker_id = rig;
  difficulty = diff;
  timestamp = time;
}

abbrev stats_at : ℕ → PoolStats
stats_at time = record {
  timestamp = time;
  total_hashrate = 4;
  connected_miners = 2;
  connected_workers = 2;
  blocks_found_1h = 1;
  blocks_found_24h = 3;
  network_difficulty = 1000;
  network_hashrate = 8;
}

abbrev mined : Tables
mined = record empty_tables {
  shares =
      share_of wallet (now - 100) 900
      ∷ (share_of rig (now - 200) 600 ∷ (share_of wallet (now - 800) 300 ∷ []));
  pool_stats = stats_row (stats_at 1000) ∷ [];
}

zero_rate : (n : ℕ) → 0 / suc n ≡ 0
zero_rate n = zero-div (suc n)

get_miner_stats_rates_example :
    (m : MinerStats whole 10) × (get_miner_stats whole 10 now wallet (live full mined)
      ≡ (done m, live full mined))
    × (get_5m_hashrate whole now wallet (live full mined) ≡ (done m.hashrate_5m, live full mined))
    × (get_15m_hashrate whole now wallet (live full mined) ≡ (done m.hashrate_15m, live full mined))
get_miner_stats_rates_example = get_miner_stats_rates whole 10 zero_rate now wallet full mined

collect_miner_stats-IsCharted_example :
    (rows : List HashrateRow) × (collect_miner_stats whole now (live full mined)
      ≡ (done tt, live full (record mined { miner_hashrates = store_each rows [] })))
    × ((addr : Bytes) → IsCharted whole now full mined rows addr)
collect_miner_stats-IsCharted_example = collect_miner_stats-IsCharted whole now full mined refl

collect_loop-IsHistory_example :
    (stats : List PoolStatsRow) × (rates : List HashrateRow) × (collect_loop whole 120
        (now ∷ ((now + 60) ∷ []))
        (live shipped mined)
      ≡ (done tt, live shipped (record mined { pool_stats = stats; miner_hashrates = rates })))
    × IsHistory (now + 60) stats
    × (shipped.has_miner_history ≡ false → rates ≡ [])
collect_loop-IsHistory_example =
    collect_loop-IsHistory whole 120 now ((now + 60) ∷ []) shipped mined (omega arith, tt) (tt, tt)
      (omega arith, tt)

collect_stats-shipped_example :
    (stats : PoolStats) × (collect_stats whole 120 now (live shipped mined) ≡ (
      done tt,
      live shipped (record mined {
        pool_stats = keep_stats now 7 (drop_time now mined.pool_stats ++ (stats_row stats ∷ []));
      }),
    ))
    × IsRowOf whole now mined (stats_row stats)
    × ((addr : Bytes) (later hours : ℕ) (t' : Tables)
        → get_miner_hashrate_history addr later hours (live shipped t')
          ≡ (done none, live shipped t'))
collect_stats-shipped_example = collect_stats-shipped whole 120 now mined

get_pool_stats_history-store_pool_stats_example :
    (history : List PoolStats) × (t' : Tables) × ((store_pool_stats (stats_at now) >>= λ _.
    get_pool_stats_history now 24)
        (live shipped mined)
      ≡ (done (some history), live shipped t'))
    × Memᴰ (record (stats_at now) { blocks_found_1h = 0 }) history
    × IsOldestFirst history
get_pool_stats_history-store_pool_stats_example =
    get_pool_stats_history-store_pool_stats (stats_at now) now 24 shipped mined (omega arith)
      (omega arith) (omega arith) (omega arith) (refl, tt)

top_miners-total_weight_example :
    (shown others : List TempMiner) × (top_miners (now - 21600) 1 (live shipped mined)
      ≡ (done (some shown), live shipped mined))
    × (total_weight shown 0 + sum_weight others ≡ 1800)
    × All (λ m. NoneHeavier m others) shown
    × ((length shown ≡ 1) ⊎ (others ≡ []))
    × ((addr : Bytes) → IsGrouped (since (now - 21600) mined.shares) (shown ++ others) addr)
top_miners-total_weight_example =
    top_miners-total_weight (now - 21600) 1 shipped mined (omega arith)

abbrev pplns_cfg : PplnsConfig whole
pplns_cfg = record { min_window = 1; max_window = 2; luck_factor = 0; fee_percent = 1 }
