-- ===== src/Master/Rewards.antt =====
-- What `minerDiffs` and `totalDiff` hold for the shares of a window.
use go_pool.Base.{
  ℕ, ◌+◌, ◌%◌, ◌^◌, ◌≤◌, ◌<◌, ◌≡◌, ap, ◌∙◌, List, [], ◌∷◌, if◌then◌else◌, Bool-cases, inl, inr,
  arith,
}
use go_pool.Base.Bytes.{Bytes, bytes_eq, bytes_eq_iff}
use go_pool.Base.Assoc.{Assoc, lookup, insert, lookup-insert, bytes_keys}
use go_pool.Ledger.Store.{Share}
use go_pool.Master.Credit.{total_diff}
use go_pool.Master.Pplns.{miner_diffs, sum_diff, or_zero}

-- The difficulty of one miner's shares.
abbrev pub diff_of : Bytes → List Share → ℕ
diff_of addr [] = 0
diff_of addr (x ∷ xs) = (if bytes_eq x.miner_addr addr then x.difficulty else 0) + diff_of addr xs

-- The sum of a map's values.
abbrev pub sum_values : Assoc Bytes ℕ → ℕ
sum_values [] = 0
sum_values ((_, v) ∷ m) = v + sum_values m

lookup-sum_values : (k : Bytes) (m : Assoc Bytes ℕ) → or_zero (lookup k m) ≤ sum_values m
lookup-sum_values k [] = omega arith
lookup-sum_values k ((j, v) ∷ m) = ground (arith, lookup-sum_values k m)

sum_values-insert :
    (k : Bytes) (v : ℕ) (m : Assoc Bytes ℕ)
    → sum_values (insert k v m) + or_zero (lookup k m) ≡ sum_values m + v
sum_values-insert k v [] = omega arith
sum_values-insert k v ((j, w) ∷ m) = ground (arith, sum_values-insert k v m)

miner_diffs-sum_values :
    (xs : List Share) (m : Assoc Bytes ℕ)
    → sum_values m + total_diff xs < 2 ^ 64
    → sum_values (miner_diffs xs m) ≡ sum_values m + total_diff xs
unfolding miner_diffs
miner_diffs-sum_values [] m h = omega arith
miner_diffs-sum_values (x ∷ xs) m h =
    let old : ℕ = or_zero (lookup x.miner_addr m) in
    let fits : (old + x.difficulty) % 2 ^ 64 ≡ old + x.difficulty =
      omega (arith, lookup-sum_values x.miner_addr m) in
    rw fits (
      omega (
        arith,
        sum_values-insert x.miner_addr (old + x.difficulty) m,
        miner_diffs-sum_values xs (insert x.miner_addr (old + x.difficulty) m)
            (omega (arith, sum_values-insert x.miner_addr (old + x.difficulty) m)),
      ))

added :
    (addr : Bytes) (x : Share) (m : Assoc Bytes ℕ) (rest : ℕ)
    → or_zero (lookup addr (insert x.miner_addr (or_zero (lookup x.miner_addr m) + x.difficulty) m))
        + rest
      ≡ or_zero (lookup addr m) + ((if bytes_eq x.miner_addr addr then x.difficulty else 0) + rest)
added addr x m rest =
    ap (λ o. or_zero o + rest)
      (lookup-insert addr x.miner_addr (or_zero (lookup x.miner_addr m) + x.difficulty) m)
    ∙ elim (Bool-cases (bytes_eq x.miner_addr addr)) [
      | inl same ↦ rw (same, (bytes_eq_iff x.miner_addr addr).0 same) (omega arith)
      | inr other ↦ rw other (omega arith)
    ]

lookup-miner_diffs :
    (addr : Bytes) (xs : List Share) (m : Assoc Bytes ℕ)
    → sum_values m + total_diff xs < 2 ^ 64
    → or_zero (lookup addr (miner_diffs xs m)) ≡ or_zero (lookup addr m) + diff_of addr xs
unfolding miner_diffs
lookup-miner_diffs addr [] m h = omega arith
lookup-miner_diffs addr (x ∷ xs) m h =
    let old : ℕ = or_zero (lookup x.miner_addr m) in
    let fits : (old + x.difficulty) % 2 ^ 64 ≡ old + x.difficulty =
      omega (arith, lookup-sum_values x.miner_addr m) in
    rw fits (
      lookup-miner_diffs addr xs (insert x.miner_addr (old + x.difficulty) m)
        (omega (arith, sum_values-insert x.miner_addr (old + x.difficulty) m))
      ∙ added addr x m (diff_of addr xs))

sum_diff_total :
    (xs : List Share) (total : ℕ)
    → total + total_diff xs < 2 ^ 64
    → sum_diff xs total ≡ total + total_diff xs
unfolding sum_diff
sum_diff_total [] total h = omega arith
sum_diff_total (x ∷ xs) total h =
    let fits : (total + x.difficulty) % 2 ^ 64 ≡ total + x.difficulty = omega arith in
    rw fits (omega (arith, sum_diff_total xs (total + x.difficulty)))

-- Of shares whose difficulty is below 2^64, the map holds for each miner the difficulty of its
-- shares, and the values of the map add up to `totalDiff`.
pub miner_diffs_credit :
    (xs : List Share) (addr : Bytes)
    → total_diff xs < 2 ^ 64
    → (or_zero (lookup addr (miner_diffs xs [])) ≡ diff_of addr xs)
      × (sum_values (miner_diffs xs []) ≡ sum_diff xs 0)
miner_diffs_credit xs addr h = (
  omega (arith, lookup-miner_diffs addr xs [] (omega arith)),
  omega (arith, miner_diffs-sum_values xs [] (omega arith), sum_diff_total xs 0 (omega arith)),
)
