-- ===== src/Ledger/Charts.antt =====
-- ledger.go: the calls on the tables of the charts, `pool_stats_history` and
-- `miner_hashrate_history`, and PoolStats and MinerHashratePoint of models.go.
pub mod History
pub mod ReadBack
use go_pool.Base.{
  ℕ, ◌+◌, ◌*◌, Bool, true, false, ◌&&◌, List, [], ◌∷◌, ◌++◌, Option, none, some, ltb, leb, ◌==◌,
  if◌then◌else◌,
}
use go_pool.Base.Bytes.{Bytes, bytes_eq}
use go_pool.Ledger.Store.{PoolStatsRow, HashrateRow, Tables, M, pure, exec, fits, ◌>>=◌}

-- PoolStats, without the luck and the payments, which no code sets.
pub record PoolStats : Type 0 where
  pub timestamp : ℕ
  pub total_hashrate : ℕ
  pub connected_miners : ℕ
  pub connected_workers : ℕ
  pub blocks_found_1h : ℕ
  pub blocks_found_24h : ℕ
  pub network_difficulty : ℕ
  pub network_hashrate : ℕ

-- `int64(n)` keeps the bits of n, and so does the column.
abbrev pub stats_row : PoolStats → PoolStatsRow
stats_row p = record {
  timestamp = p.timestamp;
  pool_hashrate = p.total_hashrate;
  network_hashrate = p.network_hashrate;
  network_difficulty = p.network_difficulty;
  connected_miners = p.connected_miners;
  connected_workers = p.connected_workers;
  round_shares = 0;
  blocks_found = p.blocks_found_24h;
}

abbrev pub drop_time : ℕ → List PoolStatsRow → List PoolStatsRow
drop_time time [] = []
drop_time time (r ∷ rs) = if r.timestamp == time then drop_time time rs else r ∷ drop_time time rs

-- `INSERT OR REPLACE`: the timestamp is the primary key.
unfoldable pub store_pool_stats : PoolStats → M (Option (Unit {0}))
unfolding exec
store_pool_stats p = exec λ s t.
    some (tt, record t { pool_stats = drop_time p.timestamp t.pool_stats ++ (stats_row p ∷ []) })

-- `timestamp > ?` for `now - hours*3600`, and `ORDER BY timestamp ASC`.
abbrev pub after : ℕ → ℕ → List PoolStatsRow → List PoolStatsRow
after now hours [] = []
after now hours (r ∷ rs) =
    if ltb now (r.timestamp + hours * 3600) then r ∷ after now hours rs else after now hours rs

unfoldable pub place_row : PoolStatsRow → List PoolStatsRow → List PoolStatsRow
place_row r [] = r ∷ []
place_row r (q ∷ qs) = if leb r.timestamp q.timestamp then r ∷ (q ∷ qs) else q ∷ place_row r qs

unfoldable pub in_order : List PoolStatsRow → List PoolStatsRow
in_order [] = []
in_order (r ∷ rs) = place_row r (in_order rs)

-- A scan into a uint64 fails on a negative number.
abbrev pub scans : PoolStatsRow → Bool
scans r =
    fits r.pool_hashrate
    && (fits r.network_hashrate && (fits r.network_difficulty && fits r.round_shares))

abbrev pub all_scan : List PoolStatsRow → Bool
all_scan [] = true
all_scan (r ∷ rs) = scans r && all_scan rs

abbrev pub stats_of : PoolStatsRow → PoolStats
stats_of r = record {
  timestamp = r.timestamp;
  total_hashrate = r.pool_hashrate;
  connected_miners = r.connected_miners;
  connected_workers = r.connected_workers;
  blocks_found_1h = 0;
  blocks_found_24h = r.blocks_found;
  network_difficulty = r.network_difficulty;
  network_hashrate = r.network_hashrate;
}

abbrev pub stats_list : List PoolStatsRow → List PoolStats
stats_list [] = []
stats_list (r ∷ rs) = stats_of r ∷ stats_list rs

abbrev scanned : Option (List PoolStatsRow) → Option (List PoolStats)
scanned none = none
scanned (some rs) = if all_scan rs then some (stats_list rs) else none

unfoldable pub get_pool_stats_history : ℕ → ℕ → M (Option (List PoolStats))
unfolding exec
get_pool_stats_history now hours =
    exec (λ s t. some (in_order (after now hours t.pool_stats), t)) >>= λ rows. pure (scanned rows)

abbrev pub drop_hashrate : Bytes → ℕ → List HashrateRow → List HashrateRow
drop_hashrate addr time [] = []
drop_hashrate addr time (r ∷ rs) =
    if bytes_eq r.miner_addr addr && (r.timestamp == time)
    then drop_hashrate addr time rs
    else r ∷ drop_hashrate addr time rs

-- `INSERT OR REPLACE`: a miner has one row for a time, in the schema that has the table.
unfoldable pub store_miner_hashrate : HashrateRow → M (Option (Unit {0}))
unfolding exec
store_miner_hashrate r = exec λ s t.
    if s.has_miner_history
    then some (
      tt,
      record t {
        miner_hashrates = drop_hashrate r.miner_addr r.timestamp t.miner_hashrates ++ (r ∷ []);
      },
    )
    else none

pub record MinerHashratePoint : Type 0 where
  pub timestamp : ℕ
  pub hashrate : ℕ

abbrev pub points_after : Bytes → ℕ → ℕ → List HashrateRow → List MinerHashratePoint
points_after addr now hours [] = []
points_after addr now hours (r ∷ rs) =
    let rest = points_after addr now hours rs in
    if bytes_eq r.miner_addr addr && ltb now (r.timestamp + hours * 3600)
    then record { timestamp = r.timestamp; hashrate = r.hashrate_5m } ∷ rest
    else rest

unfoldable pub place_point : MinerHashratePoint → List MinerHashratePoint → List MinerHashratePoint
place_point p [] = p ∷ []
place_point p (q ∷ qs) = if leb p.timestamp q.timestamp then p ∷ (q ∷ qs) else q ∷ place_point p qs

unfoldable pub points_in_order : List MinerHashratePoint → List MinerHashratePoint
points_in_order [] = []
points_in_order (p ∷ ps) = place_point p (points_in_order ps)

unfoldable pub get_miner_hashrate_history : Bytes → ℕ → ℕ → M (Option (List MinerHashratePoint))
unfolding exec
get_miner_hashrate_history addr now hours = exec λ s t.
    if s.has_miner_history
    then some (points_in_order (points_after addr now hours t.miner_hashrates), t)
    else none

-- `DELETE ... WHERE timestamp < ?` for `now - days*24*3600`.
abbrev pub is_old : ℕ → ℕ → ℕ → Bool
is_old now days time = ltb (time + days * 86400) now

abbrev pub keep_stats : ℕ → ℕ → List PoolStatsRow → List PoolStatsRow
keep_stats now days [] = []
keep_stats now days (r ∷ rs) =
    if is_old now days r.timestamp then keep_stats now days rs else r ∷ keep_stats now days rs

abbrev pub keep_hashrates : ℕ → ℕ → List HashrateRow → List HashrateRow
keep_hashrates now days [] = []
keep_hashrates now days (r ∷ rs) =
    if is_old now days r.timestamp
    then keep_hashrates now days rs
    else r ∷ keep_hashrates now days rs

abbrev then_next : M (Option (Unit {0})) → Option (Unit {0}) → M (Option (Unit {0}))
then_next m none = pure none
then_next m (some _) = m

-- The three deletions, in their order; the first error ends the loop. No code writes to
-- `worker_hashrate_history`, so its rows are left out.
unfoldable pub cleanup_old_chart_data : ℕ → ℕ → M (Option (Unit {0}))
unfolding exec
cleanup_old_chart_data now days =
    exec (λ s t. some (tt, record t { pool_stats = keep_stats now days t.pool_stats }))
    >>= then_next (
        exec (λ s t.
          if s.has_miner_history
          then some (tt, record t { miner_hashrates = keep_hashrates now days t.miner_hashrates })
          else none)
        >>= then_next (exec λ s t. if s.has_worker_history then some (tt, t) else none))
