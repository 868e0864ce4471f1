-- ===== src/Master/Stats/Chart.antt =====
-- cmd/master/stats_collector.go: the table of the pool's chart under the collections.
use go_pool.Base.{
  ℕ, ◌-◌, ◌≤◌, ◌≡◌, refl, ap, ◌∙◌, false, List, [], ◌∷◌, ◌++◌, Option, none, some, Bool-cases, inl,
  inr, arith, All, All-map, length, take, map,
}
use go_pool.Base.Bytes.{Bytes}
use go_pool.Base.Assoc.{Assoc}
use go_pool.Ledger.Charts.History.{IsHistory, IsRecent, IsDistinct, kept-IsHistory}
use go_pool.Float.{Float}
use go_pool.Ledger.Store.{
  Share, PoolStatsRow, HashrateRow, Schema, Tables, done, live, exec, shipped,
}
use go_pool.Ledger.Shares.{
  since, newest_first, distinct, miners, get_shares_in_window, get_active_miner_count,
}
use go_pool.Ledger.Blocks.{get_blockchain_info}
use go_pool.Ledger.Reports.{
  BlockInfo, block_info, highest_first, worker_keys, get_recent_blocks, get_active_worker_count,
}
use go_pool.Ledger.Charts.{
  PoolStats, stats_row, drop_time, keep_stats, keep_hashrates, get_miner_hashrate_history,
  store_pool_stats, store_miner_hashrate, cleanup_old_chart_data,
}
use go_pool.Master.Stats.{
  found_since, get_blocks_found_since, store_rows, miner_row, group_shares, hashrate, pool_stats_of,
  collect_miner_stats, collect_stats, collect_loop,
}
use go_pool.Master.Stats.Groups.{store_each, collect_miner_stats-IsCharted}

store_miner_hashrate_fails :
    (r : HashrateRow) (s : Schema) (t : Tables)
    → s.has_miner_history ≡ false
    → store_miner_hashrate r (live s t) ≡ (done none, live s t)
unfolding store_miner_hashrate exec
store_miner_hashrate_fails r s t h = rw h refl

-- The answer of the cleanup, an error where one of its tables is missing.
cleanup_done :
    (now : ℕ) (s : Schema) (t : Tables)
    → (o : Option (Unit {0})) × (rates : List HashrateRow) × (cleanup_old_chart_data now 7
          (live s t)
        ≡ (
          done o,
          live s (record t { pool_stats = keep_stats now 7 t.pool_stats; miner_hashrates = rates }),
        ))
      × (s.has_miner_history ≡ false → rates ≡ t.miner_hashrates)
unfolding cleanup_old_chart_data exec
cleanup_done now s t = elim (Bool-cases s.has_miner_history) [
  | inl e ↦ elim (Bool-cases s.has_worker_history) [
    | inl f ↦
        (some tt, keep_hashrates now 7 t.miner_hashrates, rw (e, f) refl, λ missing. ground arith)
    | inr f ↦
        (none, keep_hashrates now 7 t.miner_hashrates, rw (e, f) refl, λ missing. ground arith)
  ]
  | inr e ↦ (none, t.miner_hashrates, rw e refl, λ _. refl)
]

module _ (fl : Float) where
  open fl use {to_nat}

  store_rows_fails :
      (now : ℕ) (m : Assoc Bytes (List Share)) (s : Schema) (t : Tables)
      → s.has_miner_history ≡ false
      → store_rows fl now m (live s t) ≡ (done tt, live s t)
  unfolding store_rows
  store_rows_fails now [] s t h = refl
  store_rows_fails now (g ∷ m) s t h =
      rw (store_miner_hashrate_fails (miner_row fl now g) s t h) (store_rows_fails now m s t h)

  collect_miner_stats_fails :
      (now : ℕ) (s : Schema) (t : Tables)
      → s.has_miner_history ≡ false
      → collect_miner_stats fl now (live s t) ≡ (done tt, live s t)
  unfolding collect_miner_stats get_shares_in_window exec
  collect_miner_stats_fails now s t h = store_rows_fails now (group_shares _ []) s t h

  collect_miner_stats_done :
      (now : ℕ) (s : Schema) (t : Tables)
      → (rates : List HashrateRow) × (collect_miner_stats fl now (live s t)
          ≡ (done tt, live s (record t { miner_hashrates = rates })))
        × (s.has_miner_history ≡ false → rates ≡ t.miner_hashrates)
  collect_miner_stats_done now s t = elim (Bool-cases s.has_miner_history) [
    | inl e ↦
        let (rows, run, _) = collect_miner_stats-IsCharted fl now s t e in
        (store_each rows t.miner_hashrates, run, λ missing. ground arith)
    | inr e ↦ (t.miner_hashrates, collect_miner_stats_fails now s t e, λ _. refl)
  ]

  -- The pool's row of a collection: the mean rate of five minutes, and the blocks of a day.
  abbrev pub IsRowOf : ℕ → Tables → PoolStatsRow → Type 0
  IsRowOf now t r =
      (r.timestamp ≡ now)
      × (r.connected_miners ≡ length (distinct (miners (since (now - 600) t.shares))))
      × (r.pool_hashrate ≡ to_nat (hashrate fl 300 (newest_first (since (now - 300) t.shares))))

  -- Up to the store.
  collect_stats_done :
      (block_time now : ℕ) (s : Schema) (t : Tables)
      → (stats : PoolStats) × (rates : List HashrateRow) × (collect_stats fl block_time now
            (live s t)
          ≡ (
            done tt,
            live s (record t {
              pool_stats = keep_stats now 7 (drop_time now t.pool_stats ++ (stats_row stats ∷ []));
              miner_hashrates = rates;
            }),
          ))
        × IsRowOf now t (stats_row stats)
        × (s.has_miner_history ≡ false → rates ≡ t.miner_hashrates)
  unfolding collect_stats get_shares_in_window get_active_miner_count get_active_worker_count
      get_blockchain_info get_blocks_found_since get_recent_blocks store_pool_stats exec
  collect_stats_done block_time now s t =
      let blocks : List BlockInfo = take 1000 (map block_info (highest_first t.blocks_found)) in
      let stats : PoolStats =
        pool_stats_of fl block_time now (newest_first (since (now - 300) t.shares))
          (some (length (distinct (miners (since (now - 600) t.shares)))))
          (some (length (distinct (worker_keys (since (now - 600) t.shares)))))
          (some t.blockchain_info) (some (found_since (now - 3600) blocks))
          (some (found_since (now - 86400) blocks)) in
      let stored : Tables = record t {
        pool_stats = drop_time now t.pool_stats ++ (stats_row stats ∷ []);
      } in
      let (rates, run, same) = collect_miner_stats_done now s stored in
      let (o, left, cleanup, same') =
        cleanup_done now s (record stored { miner_hashrates = rates }) in
      (
        stats,
        left,
        rw (run, cleanup) refl,
        (refl, refl, refl),
        λ missing. same' missing ∙ same missing,
      )

  -- The times of the collections do not go back.
  abbrev pub Ascending : ℕ → List ℕ → Type 0
  Ascending now [] = Unit {0}
  Ascending now (tick ∷ ticks) = (now ≤ tick) × Ascending tick ticks

  abbrev pub last_tick : ℕ → List ℕ → ℕ
  last_tick now [] = now
  last_tick now (tick ∷ ticks) = last_tick tick ticks

  -- On a ledger that answers, whatever its schema, the loop of the collections runs to its stop and
  -- leaves a table with one row for a time, the latest that of the last collection and none more than
  -- seven days older. It needs a clock that does not go back, and a table with one row for a time and
  -- none of the future; it changes no table but those of the charts, and where the table of the
  -- miners is missing only the pool's.
  pub collect_loop-IsHistory :
      (block_time now : ℕ) (ticks : List ℕ) (s : Schema) (t : Tables)
      → Ascending now ticks
      → IsDistinct t.pool_stats
      → All (λ r. r.timestamp ≤ now) t.pool_stats
      → (stats : List PoolStatsRow) × (rates : List HashrateRow) × (collect_loop fl block_time
            (now ∷ ticks)
            (live s t)
          ≡ (done tt, live s (record t { pool_stats = stats; miner_hashrates = rates })))
        × IsHistory (last_tick now ticks) stats
        × (s.has_miner_history ≡ false → rates ≡ t.miner_hashrates)
  unfolding collect_loop
  collect_loop-IsHistory block_time now [] s t up d h =
      let (stats, rates, run, row, same) = collect_stats_done block_time now s t in
      (
        keep_stats now 7 (drop_time now t.pool_stats ++ (stats_row stats ∷ [])),
        rates,
        rw run refl,
        kept-IsHistory now t.pool_stats (stats_row stats) row.0 d h,
        same,
      )
  collect_loop-IsHistory block_time now (tick ∷ ticks) s t up d h =
      let (stats, rates, run, row, same) = collect_stats_done block_time now s t in
      let kept : List PoolStatsRow =
        keep_stats now 7 (drop_time now t.pool_stats ++ (stats_row stats ∷ [])) in
      let good : IsHistory now kept = kept-IsHistory now t.pool_stats (stats_row stats) row.0 d h in
      let (stats', rates', run', good', same') =
        collect_loop-IsHistory block_time tick ticks s
          (record t { pool_stats = kept; miner_hashrates = rates }) up.1 good.distinct
          (All-map (IsRecent now) (λ r. r.timestamp ≤ tick) kept (λ r k. omega (arith, k.0, up.0))
            good.recent) in
      (stats', rates', rw run run', good', λ missing. same' missing ∙ same missing)

  -- On a fresh database a collection stores and cleans up the pool's row only: the miners' table is
  -- missing, so no hashrate of a miner is stored, and a later question for a miner's history fails.
  pub collect_stats-shipped :
      (block_time now : ℕ) (t : Tables)
      → (stats : PoolStats) × (collect_stats fl block_time now (live shipped t) ≡ (
        done tt,
        live shipped (record t {
          pool_stats = keep_stats now 7 (drop_time now t.pool_stats ++ (stats_row stats ∷ []));
        }),
      ))
        × IsRowOf now t (stats_row stats)
        × ((addr : Bytes) (later hours : ℕ) (t' : Tables)
            → get_miner_hashrate_history addr later hours (live shipped t')
              ≡ (done none, live shipped t'))
  unfolding get_miner_hashrate_history exec
  collect_stats-shipped block_time now t =
      let (stats, rates, run, row, same) = collect_stats_done block_time now shipped t in
      let kept : List PoolStatsRow =
        keep_stats now 7 (drop_time now t.pool_stats ++ (stats_row stats ∷ [])) in
      let unstored : rates ≡ t.miner_hashrates = same refl in
      (
        stats,
        run
            ∙ ap
                (λ rs.
                  (done tt, live shipped (record t { pool_stats = kept; miner_hashrates = rs })))
                unstored,
        row,
        λ addr later hours t'. refl,
      )
