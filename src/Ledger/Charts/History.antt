-- ===== src/Ledger/Charts/History.antt =====
-- ledger.go: the rows of `pool_stats_history` behind a store and a cleanup.
use go_pool.Base.{
  ℕ, ◌+◌, ◌≤◌, ◌≡◌, ◌≢◌, refl, sym, ap, false, List, [], ◌∷◌, ◌++◌, ◌==◌, Bool-cases, inl, inr,
  arith, All,
}
use go_pool.Ledger.Store.{PoolStatsRow}
use go_pool.Ledger.Charts.{drop_time, keep_stats, is_old}

-- The times are those of a primary key.
abbrev pub IsDistinct : List PoolStatsRow → Type 0
IsDistinct [] = Unit {0}
IsDistinct (r ∷ rs) = All (λ q. q.timestamp ≢ r.timestamp) rs × IsDistinct rs

-- No row is newer than the time, and none is more than seven days older.
abbrev pub IsRecent : ℕ → PoolStatsRow → Type 0
IsRecent now r = (r.timestamp ≤ now) × (now ≤ r.timestamp + 604800)

-- The table behind a collection: its own row comes last.
pub record IsHistory (now : ℕ) (rows : List PoolStatsRow) : Type 0 where
  pub distinct : IsDistinct rows
  pub recent : All (IsRecent now) rows
  pub latest :
      (front : List PoolStatsRow) × (row : PoolStatsRow) × (rows ≡ front ++ (row ∷ []))
      × (row.timestamp ≡ now)

pub All-drop_time :
    (P : PoolStatsRow → Type 0) (time : ℕ) (rs : List PoolStatsRow)
    → All P rs
    → All P (drop_time time rs)
All-drop_time P time [] h = tt
All-drop_time P time (r ∷ rs) h = elim (Bool-cases (r.timestamp == time)) [
  | inl e ↦ rw e (All-drop_time P time rs h.1)
  | inr e ↦ rw e (h.0, All-drop_time P time rs h.1)
]

All-keep_stats :
    (P : PoolStatsRow → Type 0) (now days : ℕ) (rs : List PoolStatsRow)
    → All P rs
    → All P (keep_stats now days rs)
All-keep_stats P now days [] h = tt
All-keep_stats P now days (r ∷ rs) h = elim (Bool-cases (is_old now days r.timestamp)) [
  | inl e ↦ rw e (All-keep_stats P now days rs h.1)
  | inr e ↦ rw e (h.0, All-keep_stats P now days rs h.1)
]

drop_time_other :
    (time : ℕ) (rs : List PoolStatsRow) → All (λ q. q.timestamp ≢ time) (drop_time time rs)
drop_time_other time [] = tt
drop_time_other time (r ∷ rs) = elim (Bool-cases (r.timestamp == time)) [
  | inl e ↦ rw e (drop_time_other time rs)
  | inr e ↦ rw e (ground arith, drop_time_other time rs)
]

IsDistinct-drop_time :
    (time : ℕ) (rs : List PoolStatsRow) → IsDistinct rs → IsDistinct (drop_time time rs)
IsDistinct-drop_time time [] h = tt
IsDistinct-drop_time time (r ∷ rs) h = elim (Bool-cases (r.timestamp == time)) [
  | inl e ↦ rw e (IsDistinct-drop_time time rs h.1)
  | inr e ↦
      rw e (
        All-drop_time (λ q. q.timestamp ≢ r.timestamp) time rs h.0,
        IsDistinct-drop_time time rs h.1,
      )
]

IsDistinct-keep_stats :
    (now days : ℕ) (rs : List PoolStatsRow) → IsDistinct rs → IsDistinct (keep_stats now days rs)
IsDistinct-keep_stats now days [] h = tt
IsDistinct-keep_stats now days (r ∷ rs) h = elim (Bool-cases (is_old now days r.timestamp)) [
  | inl e ↦ rw e (IsDistinct-keep_stats now days rs h.1)
  | inr e ↦ rw e (
    All-keep_stats (λ q. q.timestamp ≢ r.timestamp) now days rs h.0,
    IsDistinct-keep_stats now days rs h.1,
  )
]

keep_stats-IsRecent :
    (now : ℕ) (rs : List PoolStatsRow)
    → All (λ q. q.timestamp ≤ now) rs
    → All (IsRecent now) (keep_stats now 7 rs)
keep_stats-IsRecent now [] h = tt
keep_stats-IsRecent now (r ∷ rs) h = elim (Bool-cases (is_old now 7 r.timestamp)) [
  | inl e ↦ rw e (keep_stats-IsRecent now rs h.1)
  | inr e ↦ rw e ((h.0, ground arith), keep_stats-IsRecent now rs h.1)
]

pub All-snoc :
    (P : PoolStatsRow → Type 0) (rs : List PoolStatsRow) (r : PoolStatsRow)
    → All P rs
    → P r
    → All P (rs ++ (r ∷ []))
All-snoc P [] r h p = (p, tt)
All-snoc P (q ∷ rs) r h p = (h.0, All-snoc P rs r h.1 p)

IsDistinct-snoc :
    (rs : List PoolStatsRow) (r : PoolStatsRow)
    → IsDistinct rs
    → All (λ q. q.timestamp ≢ r.timestamp) rs
    → IsDistinct (rs ++ (r ∷ []))
IsDistinct-snoc [] r h k = (tt, tt)
IsDistinct-snoc (q ∷ rs) r h k = (
  All-snoc (λ p. p.timestamp ≢ q.timestamp) rs r h.0 (λ e. k.0 (sym e)),
  IsDistinct-snoc rs r h.1 k.1,
)

keep_stats-snoc :
    (now days : ℕ) (rs : List PoolStatsRow) (r : PoolStatsRow)
    → is_old now days r.timestamp ≡ false
    → keep_stats now days (rs ++ (r ∷ [])) ≡ keep_stats now days rs ++ (r ∷ [])
keep_stats-snoc now days [] r h = rw h refl
keep_stats-snoc now days (q ∷ rs) r h = elim (Bool-cases (is_old now days q.timestamp)) [
  | inl e ↦ rw e (keep_stats-snoc now days rs r h)
  | inr e ↦ rw e (ap (λ l. q ∷ l) (keep_stats-snoc now days rs r h))
]

-- A row for now is stored in place of one of the same time, and rows of more than seven days go.
pub kept-IsHistory :
    (now : ℕ) (rs : List PoolStatsRow) (r : PoolStatsRow)
    → r.timestamp ≡ now
    → IsDistinct rs
    → All (λ q. q.timestamp ≤ now) rs
    → IsHistory now (keep_stats now 7 (drop_time now rs ++ (r ∷ [])))
kept-IsHistory now rs r e d h =
    let rest : List PoolStatsRow = drop_time now rs in
    let others : All (λ q. q.timestamp ≢ r.timestamp) rest = rw e (drop_time_other now rs) in
    record {
      distinct =
          IsDistinct-keep_stats now 7 (rest ++ (r ∷ []))
            (IsDistinct-snoc rest r (IsDistinct-drop_time now rs d) others);
      recent = keep_stats-IsRecent now (rest ++ (r ∷ [])) (
          All-snoc (λ q. q.timestamp ≤ now) rest r (All-drop_time (λ q. q.timestamp ≤ now) now rs h)
            (omega (arith, e)));
      latest = (keep_stats now 7 rest, r, keep_stats-snoc now 7 rest r (ground (arith, e)), e);
    }
