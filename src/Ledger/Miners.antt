-- ===== src/Ledger/Miners.antt =====
-- ledger.go `GetTopMinersForAPI` and `GetMinerWorkerStats`: the reports by miner and by worker, behind
-- their queries in Ledger/Reports.antt.
use go_pool.Base.{ℕ, ◌-◌, List, [], ◌∷◌, Option, none, some, ltb, if◌then◌else◌, map}
use go_pool.Base.Bytes.{Bytes}
use go_pool.Float.{Float}
use go_pool.Ledger.Store.{done, M, pure, ◌>>=◌}
use go_pool.Ledger.Reports.{
  TempMiner, TempWorker, top_miners, total_weight, count_shares, miner_workers, total_count,
}

module _ (fl : Float) where
  open fl use {F, of_nat, mul, div}

  pub record TopMinerApi : Type 0 where
    pub miner_addr : Bytes
    pub share_count : ℕ
    pub shares_in_window : ℕ
    pub worker_count : ℕ
    pub percentage : F
    pub last_share_time : ℕ

  -- `float64(part) / float64(total) * 100`, or 0 where there is nothing.
  abbrev pub percent : ℕ → ℕ → F
  percent part total =
      if ltb 0 total then mul (div (of_nat part) (of_nat total)) (of_nat 100) else of_nat 0

  abbrev or_else : ℕ → Option ℕ → ℕ
  or_else n none = n
  or_else n (some m) = m

  abbrev pub top_miner : ℕ → TempMiner → Option ℕ → TopMinerApi
  top_miner total m count = record {
    miner_addr = m.addr;
    share_count = or_else m.shares_in_window count;
    shares_in_window = m.shares_in_window;
    worker_count = m.workers;
    percentage = percent m.pplns_weight total;
    last_share_time = m.last_share_time;
  }

  -- The second loop of `GetTopMinersForAPI`.
  unfoldable pub with_counts : ℕ → List TempMiner → M (List TopMinerApi)
  with_counts total [] db = (done [], db)
  with_counts total (m ∷ ms) db =
      (count_shares m.addr >>= λ count.
      with_counts total ms >>= λ rest. pure (top_miner total m count ∷ rest))
        db

  abbrev counted : Option (List TempMiner) → M (Option (List TopMinerApi))
  counted none = pure none
  counted (some ms) = with_counts (total_weight ms 0) ms >>= λ rows. pure (some rows)

  -- `GetTopMinersForAPI`
  unfoldable pub get_top_miners_for_api : ℕ → ℕ → M (Option (List TopMinerApi))
  get_top_miners_for_api now limit = top_miners (now - 21600) limit >>= counted

  pub record WorkerStats : Type 0 where
    pub worker_id : Bytes
    pub share_count : ℕ
    pub shares_in_window : ℕ
    pub last_share_time : ℕ
    pub percentage : F
    pub hashrate : F

  abbrev window_duration : ℕ → ℕ → ℕ
  window_duration now start = if ltb start now then now - start else 1

  abbrev pub worker_stats : ℕ → ℕ → TempWorker → WorkerStats
  worker_stats duration total w = record {
    worker_id = w.id;
    share_count = w.total_shares;
    shares_in_window = w.shares_in_window;
    last_share_time = w.last_share_time;
    percentage = percent w.total_shares total;
    hashrate = div (of_nat w.window_diff) (of_nat duration);
  }

  abbrev all_stats : ℕ → ℕ → Option (List TempWorker) → Option (List WorkerStats)
  all_stats now start none = none
  all_stats now start (some ws) =
      some (map (worker_stats (window_duration now start) (total_count ws 0)) ws)

  -- `GetMinerWorkerStats`
  unfoldable pub get_miner_worker_stats : Bytes → ℕ → ℕ → M (Option (List WorkerStats))
  get_miner_worker_stats addr start now =
      miner_workers addr start >>= λ ws. pure (all_stats now start ws)
