-- ===== src/Ledger/Charts/ReadBack.antt =====
-- ledger.go `StorePoolStats` and `GetPoolStatsHistory`: what is read of what was stored.
use go_pool.Base.{
  ℕ, ◌+◌, ◌*◌, ◌^◌, ◌≤◌, ◌<◌, ◌≡◌, refl, ap, true, List, [], ◌∷◌, ◌++◌, some, ltb, leb, lt→ltb,
  Bool-cases, inl, inr, arith, All, All-map,
}
use go_pool.Ledger.Store.{PoolStatsRow, Schema, Tables, done, live, exec, ◌>>=◌}
use go_pool.Ledger.Charts.{
  PoolStats, stats_row, stats_of, stats_list, drop_time, after, place_row, in_order, scans,
  all_scan, store_pool_stats, get_pool_stats_history,
}
use go_pool.Ledger.Charts.History.{All-drop_time, All-snoc}
use mathlib.Core.List.{Memᴰ}

abbrev pub Scans : PoolStatsRow → Type 0
Scans r = scans r ≡ true

-- The oldest first.
abbrev pub IsOldestFirst : List PoolStats → Type 0
IsOldestFirst [] = Unit {0}
IsOldestFirst (p ∷ ps) = All (λ q. p.timestamp ≤ q.timestamp) ps × IsOldestFirst ps

All-after :
    (P : PoolStatsRow → Type 0) (now hours : ℕ) (rs : List PoolStatsRow)
    → All P rs
    → All P (after now hours rs)
All-after P now hours [] h = tt
All-after P now hours (r ∷ rs) h = elim (Bool-cases (ltb now (r.timestamp + hours * 3600))) [
  | inl e ↦ rw e (h.0, All-after P now hours rs h.1)
  | inr e ↦ rw e (All-after P now hours rs h.1)
]

All-place_row :
    (P : PoolStatsRow → Type 0) (r : PoolStatsRow) (qs : List PoolStatsRow)
    → P r
    → All P qs
    → All P (place_row r qs)
unfolding place_row
All-place_row P r [] p h = (p, tt)
All-place_row P r (q ∷ qs) p h = elim (Bool-cases (leb r.timestamp q.timestamp)) [
  | inl e ↦ rw e (p, h)
  | inr e ↦ rw e (h.0, All-place_row P r qs p h.1)
]

All-in_order : (P : PoolStatsRow → Type 0) (rs : List PoolStatsRow) → All P rs → All P (in_order rs)
unfolding in_order
All-in_order P [] h = tt
All-in_order P (r ∷ rs) h = All-place_row P r (in_order rs) h.0 (All-in_order P rs h.1)

readable_scan : (rs : List PoolStatsRow) → All Scans rs → all_scan rs ≡ true
readable_scan [] h = refl
readable_scan (r ∷ rs) h = rw (h.0, readable_scan rs h.1) refl

Mem-after :
    (now hours : ℕ) (r : PoolStatsRow) (rs : List PoolStatsRow)
    → now < r.timestamp + hours * 3600
    → Memᴰ r (after now hours (rs ++ (r ∷ [])))
Mem-after now hours r [] h = rw (lt→ltb now (r.timestamp + hours * 3600) h) (Memᴰ.head refl)
Mem-after now hours r (q ∷ rs) h = elim (Bool-cases (ltb now (q.timestamp + hours * 3600))) [
  | inl e ↦ rw e (Memᴰ.tail (Mem-after now hours r rs h))
  | inr e ↦ rw e (Mem-after now hours r rs h)
]

Mem-place_row :
    (r q : PoolStatsRow) (qs : List PoolStatsRow) → Memᴰ r (q ∷ qs) → Memᴰ r (place_row q qs)
unfolding place_row
Mem-place_row r q [] m = m
Mem-place_row r q (p ∷ qs) m = elim (Bool-cases (leb q.timestamp p.timestamp)) [
  | inl e ↦ rw e m
  | inr e ↦ rw e (behind (λ k. Mem-place_row r q qs k) m)
]
  where
    behind :
        (Memᴰ r (q ∷ qs) → Memᴰ r (place_row q qs))
        → Memᴰ r (q ∷ (p ∷ qs))
        → Memᴰ r (p ∷ place_row q qs)
    behind below (Memᴰ.head same) = Memᴰ.tail (below (Memᴰ.head same))
    behind below (Memᴰ.tail (Memᴰ.head same)) = Memᴰ.head same
    behind below (Memᴰ.tail (Memᴰ.tail k)) = Memᴰ.tail (below (Memᴰ.tail k))

Mem-in_order : (r : PoolStatsRow) (rs : List PoolStatsRow) → Memᴰ r rs → Memᴰ r (in_order rs)
unfolding in_order
Mem-in_order r [] m = m
Mem-in_order r (q ∷ rs) (Memᴰ.head same) = Mem-place_row r q (in_order rs) (Memᴰ.head same)
Mem-in_order r (q ∷ rs) (Memᴰ.tail m) =
    Mem-place_row r q (in_order rs) (Memᴰ.tail (Mem-in_order r rs m))

Mem-stats_list :
    (r : PoolStatsRow) (rs : List PoolStatsRow) → Memᴰ r rs → Memᴰ (stats_of r) (stats_list rs)
Mem-stats_list r [] m = elim m [ ]
Mem-stats_list r (q ∷ rs) (Memᴰ.head same) = Memᴰ.head (ap stats_of same)
Mem-stats_list r (q ∷ rs) (Memᴰ.tail m) = Memᴰ.tail (Mem-stats_list r rs m)

abbrev NotBefore : ℕ → List PoolStatsRow → Type 0
NotBefore time rs = All (λ q. time ≤ q.timestamp) rs

abbrev InOrder : List PoolStatsRow → Type 0
InOrder [] = Unit {0}
InOrder (r ∷ rs) = NotBefore r.timestamp rs × InOrder rs

InOrder-place_row :
    (r : PoolStatsRow) (qs : List PoolStatsRow) → InOrder qs → InOrder (place_row r qs)
unfolding place_row
InOrder-place_row r [] h = (tt, tt)
InOrder-place_row r (q ∷ qs) h = elim (Bool-cases (leb r.timestamp q.timestamp)) [
  | inl e ↦
      let first : r.timestamp ≤ q.timestamp = ground arith in
      rw e (
        (
          first,
          All-map (λ p. q.timestamp ≤ p.timestamp) (λ p. r.timestamp ≤ p.timestamp) qs
              (λ p k. omega (arith, k, first)) h.0,
        ),
        h,
      )
  | inr e ↦
      let later : q.timestamp ≤ r.timestamp = ground arith in
      rw e
        (All-place_row (λ p. q.timestamp ≤ p.timestamp) r qs later h.0, InOrder-place_row r qs h.1)
]

in_order-InOrder : (rs : List PoolStatsRow) → InOrder (in_order rs)
unfolding in_order
in_order-InOrder [] = tt
in_order-InOrder (r ∷ rs) = InOrder-place_row r (in_order rs) (in_order-InOrder rs)

stats_list_later :
    (time : ℕ) (rs : List PoolStatsRow)
    → NotBefore time rs
    → All (λ p. time ≤ p.timestamp) (stats_list rs)
stats_list_later time [] h = tt
stats_list_later time (r ∷ rs) h = (h.0, stats_list_later time rs h.1)

stats_list-IsOldestFirst : (rs : List PoolStatsRow) → InOrder rs → IsOldestFirst (stats_list rs)
stats_list-IsOldestFirst [] h = tt
stats_list-IsOldestFirst (r ∷ rs) h =
    (stats_list_later r.timestamp rs h.0, stats_list-IsOldestFirst rs h.1)

-- On a ledger that answers, of statistics that are stored and then read within the hours that are
-- asked for, the history has everything but the blocks of the last hour, which are 0, and it has the
-- oldest first. The three stored uint64 are below 2^63, and the rows so far can be read.
pub get_pool_stats_history-store_pool_stats :
    (p : PoolStats) (now hours : ℕ) (s : Schema) (t : Tables)
    → p.total_hashrate < 2 ^ 63
    → p.network_hashrate < 2 ^ 63
    → p.network_difficulty < 2 ^ 63
    → now < p.timestamp + hours * 3600
    → All Scans t.pool_stats
    → (history : List PoolStats) × (t' : Tables) × ((store_pool_stats p >>= λ _.
            get_pool_stats_history now hours)
          (live s t)
        ≡ (done (some history), live s t'))
      × Memᴰ (record p { blocks_found_1h = 0 }) history
      × IsOldestFirst history
unfolding store_pool_stats get_pool_stats_history exec
get_pool_stats_history-store_pool_stats p now hours s t h k l recent rows =
    let row : PoolStatsRow = stats_row p in
    let stored : List PoolStatsRow = drop_time p.timestamp t.pool_stats ++ (row ∷ []) in
    let readable : Scans row =
      rw
        (
          lt→ltb p.total_hashrate (2 ^ 63) h,
          lt→ltb p.network_hashrate (2 ^ 63) k,
          lt→ltb p.network_difficulty (2 ^ 63) l,
        )
        refl in
    let all_readable : all_scan (in_order (after now hours stored)) ≡ true =
      readable_scan (in_order (after now hours stored)) (
        All-in_order Scans (after now hours stored) (
          All-after Scans now hours stored (
            All-snoc Scans (drop_time p.timestamp t.pool_stats) row
              (All-drop_time Scans p.timestamp t.pool_stats rows) readable))) in
    (
      stats_list (in_order (after now hours stored)),
      record t { pool_stats = stored },
      rw all_readable refl,
      Mem-stats_list row (in_order (after now hours stored)) (
          Mem-in_order row (after now hours stored)
            (Mem-after now hours row (drop_time p.timestamp t.pool_stats) recent)),
      stats_list-IsOldestFirst (in_order (after now hours stored))
          (in_order-InOrder (after now hours stored)),
    )
