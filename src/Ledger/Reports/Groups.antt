-- ===== src/Ledger/Reports/Groups.antt =====
-- ledger.go `GROUP BY miner_address`: the groups share out the window.
use go_pool.Base.{
  ℕ, ◌+◌, ◌*◌, ◌≡◌, refl, sym, ap, ◌∙◌, subst, true, false, List, [], ◌∷◌, if◌then◌else◌,
  Bool-cases, inl, inr, arith, All, All-map, map,
}
use go_pool.Base.Bytes.{Bytes, bytes_eq, bytes_eq_iff}
use go_pool.Ledger.Store.{Share}
use go_pool.Ledger.Shares.{of_miner, distinct, miners, contains_bytes}
use go_pool.Ledger.Reports.{TempMiner, temp_miner, miner_groups, sum_difficulty}

-- How often a name stands in a list.
abbrev pub hits : Bytes → List Bytes → ℕ
hits k [] = 0
hits k (a ∷ l) = (if bytes_eq k a then 1 else 0) + hits k l

pub bytes_eq_sym : (a b : Bytes) → bytes_eq a b ≡ bytes_eq b a
bytes_eq_sym a b = elim (Bool-cases (bytes_eq a b)) [
  | inl same ↦ rw ((bytes_eq_iff a b).0 same) refl
  | inr other ↦ elim (Bool-cases (bytes_eq b a)) [
    | inl same ↦ rw ((bytes_eq_iff b a).0 same) refl
    | inr other' ↦ other ∙ sym other'
  ]
]

-- A list without repetitions names each of its names once.
pub hits-distinct :
    (k : Bytes) (l : List Bytes) → hits k (distinct l) ≡ (if contains_bytes k l then 1 else 0)
hits-distinct k [] = refl
hits-distinct k (a ∷ l) = elim (Bool-cases (bytes_eq a k)) [
  | inl same ↦
      let e : a ≡ k = (bytes_eq_iff a k).0 same in
      elim (Bool-cases (contains_bytes a l)) [
        | inl again ↦
            rw (same, again)
              (hits-distinct k l ∙ rw (subst (λ n. contains_bytes n l ≡ true) e again) refl)
        | inr once ↦
            let absent : contains_bytes k l ≡ false =
              subst (λ n. contains_bytes n l ≡ false) e once in
            let none_left : hits k (distinct l) ≡ 0 = hits-distinct k l ∙ rw absent refl in
            rw (same, once, bytes_eq_sym k a ∙ same) (omega (arith, none_left))
      ]
  | inr other ↦ elim (Bool-cases (contains_bytes a l)) [
    | inl again ↦ rw (other, again) (hits-distinct k l)
    | inr once ↦ rw (other, once, bytes_eq_sym k a ∙ other) (omega (arith, hits-distinct k l))
  ]
]

-- The weight of a list of miners.
abbrev pub sum_weight : List TempMiner → ℕ
sum_weight [] = 0
sum_weight (m ∷ ms) = m.pplns_weight + sum_weight ms

abbrev weights : List Bytes → List Share → ℕ
weights [] xs = 0
weights (a ∷ l) xs = sum_difficulty (of_miner a xs) + weights l xs

weights-cons :
    (l : List Bytes) (x : Share) (xs : List Share)
    → weights l (x ∷ xs) ≡ hits x.miner_addr l * x.difficulty + weights l xs
weights-cons [] x xs = omega arith
weights-cons (a ∷ l) x xs = elim (Bool-cases (bytes_eq x.miner_addr a)) [
  | inl own ↦ rw own (grind (arith, weights-cons l x xs))
  | inr other ↦ rw other (grind (arith, weights-cons l x xs))
]

weights_once :
    (l : List Bytes) (xs : List Share)
    → All (λ x. hits x.miner_addr l ≡ 1) xs
    → weights l xs ≡ sum_difficulty xs
weights_once [] [] h = refl
weights_once (a ∷ l) [] h = omega (arith, weights_once l [] tt)
weights_once l (x ∷ xs) h = weights-cons l x xs ∙ rw h.0 (omega (arith, weights_once l xs h.1))

All-contains_bytes :
    (xs : List Share) → All (λ x. contains_bytes x.miner_addr (miners xs) ≡ true) xs
All-contains_bytes [] = tt
All-contains_bytes (x ∷ xs) = (
  rw ((bytes_eq_iff x.miner_addr x.miner_addr).1 refl) refl,
  All-map (λ y. contains_bytes y.miner_addr (miners xs) ≡ true)
      (λ y. contains_bytes y.miner_addr (miners (x ∷ xs)) ≡ true) xs (λ y h. in_rest y h)
      (All-contains_bytes xs),
)
  where
    in_rest :
        (y : Share)
        → contains_bytes y.miner_addr (miners xs) ≡ true
        → contains_bytes y.miner_addr (miners (x ∷ xs)) ≡ true
    in_rest y h = ground arith

sum_weight-map :
    (xs : List Share) (l : List Bytes) → sum_weight (map (temp_miner xs) l) ≡ weights l xs
sum_weight-map xs [] = refl
sum_weight-map xs (a ∷ l) = ap (λ n. sum_difficulty (of_miner a xs) + n) (sum_weight-map xs l)

-- No share of the window is counted twice or left out by the groups.
pub sum_weight-miner_groups : (xs : List Share) → sum_weight (miner_groups xs) ≡ sum_difficulty xs
sum_weight-miner_groups xs =
    sum_weight-map xs (distinct (miners xs))
    ∙ weights_once (distinct (miners xs)) xs (
        All-map (λ x. contains_bytes x.miner_addr (miners xs) ≡ true)
          (λ x. hits x.miner_addr (distinct (miners xs)) ≡ 1) xs
          (λ x h. hits-distinct x.miner_addr (miners xs) ∙ rw h refl) (All-contains_bytes xs))
