-- ===== src/Master/Stats/Rates.antt =====
-- cmd/master: the hashrates of the API, of stats.go and of the collection are the same.
use go_pool.Base.{
  ℕ, ◌+◌, ◌-◌, ◌%◌, ◌^◌, ◌≤◌, ◌<◌, ◌≡◌, refl, ◌∙◌, Bool, true, false, List, [], ◌∷◌, leb,
  if◌then◌else◌, Bool-cases, inl, inr, arith,
}
use go_pool.Ledger.Store.{Share}
use go_pool.Ledger.Shares.{since, place, newest_first}
use go_pool.Master.Credit.{total_diff}
use go_pool.Master.Pplns.{sum_diff}
use go_pool.Master.Window.{total_diff-newest_first}
use go_pool.Master.Stats.{Totals, no_totals, add_if, collect_totals}

-- The difficulty of the shares from a time on.
abbrev pub diff_since : ℕ → List Share → ℕ
diff_since start [] = 0
diff_since start (x ∷ xs) =
    (if leb start x.timestamp then x.difficulty else 0) + diff_since start xs

diff_since-place :
    (start : ℕ) (x : Share) (ys : List Share)
    → diff_since start (place x ys) ≡ diff_since start (x ∷ ys)
unfolding place
diff_since-place start x [] = refl
diff_since-place start x (y ∷ ys) = elim (Bool-cases (leb y.timestamp x.timestamp)) [
  | inl in_front ↦ rw in_front refl
  | inr behind ↦ rw behind (omega (arith, diff_since-place start x ys))
]

diff_since-newest_first :
    (start : ℕ) (xs : List Share) → diff_since start (newest_first xs) ≡ diff_since start xs
unfolding newest_first
diff_since-newest_first start [] = refl
diff_since-newest_first start (x ∷ xs) =
    omega (arith, diff_since-place start x (newest_first xs), diff_since-newest_first start xs)

-- An earlier start loses none of them.
diff_since-since :
    (start early : ℕ) (xs : List Share)
    → early ≤ start
    → diff_since start (since early xs) ≡ diff_since start xs
diff_since-since start early [] h = refl
diff_since-since start early (x ∷ xs) h = ground (arith, diff_since-since start early xs h)

total_diff-since : (start : ℕ) (xs : List Share) → total_diff (since start xs) ≡ diff_since start xs
total_diff-since start [] = refl
total_diff-since start (x ∷ xs) = ground (arith, total_diff-since start xs)

sum_diff_wraps :
    (xs : List Share) (total : ℕ)
    → total < 2 ^ 64
    → sum_diff xs total ≡ (total + total_diff xs) % 2 ^ 64
unfolding sum_diff
sum_diff_wraps [] total h = omega arith
sum_diff_wraps (x ∷ xs) total h =
    sum_diff_wraps xs ((total + x.difficulty) % 2 ^ 64) (omega arith) ∙ omega arith

-- The sum over the answer of a query of a miner's shares, or of all shares.
pub sum_diff-newest_first :
    (start : ℕ) (xs : List Share)
    → sum_diff (newest_first (since start xs)) 0 ≡ diff_since start xs % 2 ^ 64
sum_diff-newest_first start xs =
    sum_diff_wraps (newest_first (since start xs)) 0 (omega arith)
    ∙ omega (arith, total_diff-newest_first (since start xs), total_diff-since start xs)

-- Each sum of the loop is below 2^64.
abbrev Wraps : Totals → Type 0
Wraps t = (t.diff_5m < 2 ^ 64) × (t.diff_15m < 2 ^ 64) × (t.diff_1h < 2 ^ 64)

add_if_wraps : (b : Bool) (d total : ℕ) → total < 2 ^ 64 → add_if b d total < 2 ^ 64
add_if_wraps b d total h = ground arith

add_if_step :
    (b : Bool) (d total rest : ℕ)
    → (add_if b d total + rest) % 2 ^ 64 ≡ (total + ((if b then d else 0) + rest)) % 2 ^ 64
add_if_step true d total rest = omega arith
add_if_step false d total rest = omega arith

pub collect_totals_sums :
    (now : ℕ) (xs : List Share) (t : Totals)
    → Wraps t
    → ((collect_totals now xs t).diff_5m ≡ (t.diff_5m + diff_since (now - 300) xs) % 2 ^ 64)
      × ((collect_totals now xs t).diff_15m ≡ (t.diff_15m + diff_since (now - 900) xs) % 2 ^ 64)
      × ((collect_totals now xs t).diff_1h ≡ (t.diff_1h + diff_since (now - 3600) xs) % 2 ^ 64)
unfolding collect_totals
collect_totals_sums now [] t h = (omega (arith, h.0), omega (arith, h.1), omega (arith, h.2))
collect_totals_sums now (x ∷ xs) t h =
    let b5 : Bool = leb (now - 300) x.timestamp in
    let b15 : Bool = leb (now - 900) x.timestamp in
    let b60 : Bool = leb (now - 3600) x.timestamp in
    let (e, f, g) =
      collect_totals_sums now xs
        (record {
          diff_5m = add_if b5 x.difficulty t.diff_5m;
          diff_15m = add_if b15 x.difficulty t.diff_15m;
          diff_1h = add_if b60 x.difficulty t.diff_1h;
        })
        (
          add_if_wraps b5 x.difficulty t.diff_5m h.0,
          add_if_wraps b15 x.difficulty t.diff_15m h.1,
          add_if_wraps b60 x.difficulty t.diff_1h h.2,
        ) in
    (
      e ∙ add_if_step b5 x.difficulty t.diff_5m (diff_since (now - 300) xs),
      f ∙ add_if_step b15 x.difficulty t.diff_15m (diff_since (now - 900) xs),
      g ∙ add_if_step b60 x.difficulty t.diff_1h (diff_since (now - 3600) xs),
    )

-- The loop over the shares of an hour finds the sums of three queries.
pub collect_totals-sum_diff :
    (now : ℕ) (xs : List Share)
    → let t = collect_totals now (newest_first (since (now - 3600) xs)) no_totals in
      (t.diff_5m ≡ sum_diff (newest_first (since (now - 300) xs)) 0)
      × (t.diff_15m ≡ sum_diff (newest_first (since (now - 900) xs)) 0)
      × (t.diff_1h ≡ sum_diff (newest_first (since (now - 3600) xs)) 0)
collect_totals-sum_diff now xs =
    let hour : List Share = newest_first (since (now - 3600) xs) in
    let (e, f, g) =
      collect_totals_sums now hour no_totals (omega arith, omega arith, omega arith) in
    (
      same_sum (collect_totals now hour no_totals).diff_5m 300 e (omega arith),
      same_sum (collect_totals now hour no_totals).diff_15m 900 f (omega arith),
      same_sum (collect_totals now hour no_totals).diff_1h 3600 g (omega arith),
    )
  where
    same_sum :
        (n k : ℕ)
        → n ≡ (0 + diff_since (now - k) (newest_first (since (now - 3600) xs))) % 2 ^ 64
        → k ≤ 3600
        → n ≡ sum_diff (newest_first (since (now - k) xs)) 0
    same_sum n k e h =
        e
        ∙ omega (
          arith,
          diff_since-newest_first (now - k) (since (now - 3600) xs),
          diff_since-since (now - k) (now - 3600) xs (omega arith),
          sum_diff-newest_first (now - k) xs,
        )
