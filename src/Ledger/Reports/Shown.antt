-- ===== src/Ledger/Reports/Shown.antt =====
-- ledger.go `GetTopMinersForAPI`: which miners it shows, and what their percentages are of.
use go_pool.Base.{
  ℕ, zero, suc, ◌+◌, ◌%◌, ◌^◌, ◌≤◌, ◌<◌, ◌≡◌, ◌⊎◌, refl, sym, ap, subst, length, ◌∙◌, true, List,
  [], ◌∷◌, ◌++◌, some, leb, lt→ltb, Bool-cases, inl, inr, arith, All, All-map, take, drop,
  take-append-drop,
}
use go_pool.Base.Bytes.{Bytes}
use go_pool.Ledger.Store.{Share, Schema, Tables, done, live, exec}
use go_pool.Ledger.Shares.{since}
use go_pool.Ledger.Reports.{
  TempMiner, miner_groups, sum_difficulty, all_fit, place_miner, heaviest_first, total_weight,
  top_miners,
}
use go_pool.Ledger.Reports.Single.{IsGrouped, heaviest_first-IsGrouped, take_full}
use go_pool.Ledger.Reports.Groups.{sum_weight, sum_weight-miner_groups}

sum_weight-place_miner :
    (m : TempMiner) (ns : List TempMiner)
    → sum_weight (place_miner m ns) ≡ m.pplns_weight + sum_weight ns
unfolding place_miner
sum_weight-place_miner m [] = refl
sum_weight-place_miner m (n ∷ ns) = ground (arith, sum_weight-place_miner m ns)

sum_weight-heaviest_first : (ms : List TempMiner) → sum_weight (heaviest_first ms) ≡ sum_weight ms
unfolding heaviest_first
sum_weight-heaviest_first [] = refl
sum_weight-heaviest_first (m ∷ ms) =
    omega (arith, sum_weight-place_miner m (heaviest_first ms), sum_weight-heaviest_first ms)

sum_weight-append : (ms ns : List TempMiner) → sum_weight (ms ++ ns) ≡ sum_weight ms + sum_weight ns
sum_weight-append [] ns = omega arith
sum_weight-append (m ∷ ms) ns = omega (arith, sum_weight-append ms ns)

total_weight-sum_weight :
    (ms : List TempMiner) (total : ℕ)
    → total + sum_weight ms < 2 ^ 64
    → total_weight ms total ≡ total + sum_weight ms
unfolding total_weight
total_weight-sum_weight [] total h = omega arith
total_weight-sum_weight (m ∷ ms) total h =
    let small : (total + m.pplns_weight) % 2 ^ 64 ≡ total + m.pplns_weight = omega arith in
    rw small (omega (arith, total_weight-sum_weight ms (total + m.pplns_weight)))

light_fit : (ms : List TempMiner) → sum_weight ms < 2 ^ 63 → all_fit ms ≡ true
light_fit [] h = refl
light_fit (m ∷ ms) h =
    rw (lt→ltb m.pplns_weight (2 ^ 63) (omega arith)) (light_fit ms (omega arith))

-- No miner of the list is heavier than this one.
abbrev pub NoneHeavier : TempMiner → List TempMiner → Type 0
NoneHeavier m ns = All (λ n. n.pplns_weight ≤ m.pplns_weight) ns

abbrev IsHeaviestFirst : List TempMiner → Type 0
IsHeaviestFirst [] = Unit {0}
IsHeaviestFirst (m ∷ ms) = NoneHeavier m ms × IsHeaviestFirst ms

NoneHeavier-trans :
    (m n : TempMiner) (ms : List TempMiner)
    → n.pplns_weight ≤ m.pplns_weight
    → NoneHeavier n ms
    → NoneHeavier m ms
NoneHeavier-trans m n ms h k =
    All-map (λ p. p.pplns_weight ≤ n.pplns_weight) (λ p. p.pplns_weight ≤ m.pplns_weight) ms
      (λ p e. omega (arith, e, h)) k

NoneHeavier-place_miner :
    (m n : TempMiner) (ms : List TempMiner)
    → n.pplns_weight ≤ m.pplns_weight
    → NoneHeavier m ms
    → NoneHeavier m (place_miner n ms)
unfolding place_miner
NoneHeavier-place_miner m n [] h k = (h, tt)
NoneHeavier-place_miner m n (p ∷ ms) h k = elim (Bool-cases (leb p.pplns_weight n.pplns_weight)) [
  | inl e ↦ rw e (h, k)
  | inr e ↦ rw e (k.0, NoneHeavier-place_miner m n ms h k.1)
]

IsHeaviestFirst-place_miner :
    (m : TempMiner) (ns : List TempMiner) → IsHeaviestFirst ns → IsHeaviestFirst (place_miner m ns)
unfolding place_miner
IsHeaviestFirst-place_miner m [] h = (tt, tt)
IsHeaviestFirst-place_miner m (n ∷ ns) h = elim (Bool-cases (leb n.pplns_weight m.pplns_weight)) [
  | inl e ↦
      let lighter : n.pplns_weight ≤ m.pplns_weight = ground arith in
      rw e ((lighter, NoneHeavier-trans m n ns lighter h.0), h)
  | inr e ↦
      let heavier : m.pplns_weight ≤ n.pplns_weight = ground arith in
      rw e (NoneHeavier-place_miner n m ns heavier h.0, IsHeaviestFirst-place_miner m ns h.1)
]

heaviest_first-IsHeaviestFirst : (ms : List TempMiner) → IsHeaviestFirst (heaviest_first ms)
unfolding heaviest_first
heaviest_first-IsHeaviestFirst [] = tt
heaviest_first-IsHeaviestFirst (m ∷ ms) =
    IsHeaviestFirst-place_miner m (heaviest_first ms) (heaviest_first-IsHeaviestFirst ms)

NoneHeavier-drop :
    (m : TempMiner) (limit : ℕ) (ms : List TempMiner)
    → NoneHeavier m ms
    → NoneHeavier m (drop limit ms)
NoneHeavier-drop m zero ms h = h
NoneHeavier-drop m (suc limit) [] h = tt
NoneHeavier-drop m (suc limit) (n ∷ ms) h = NoneHeavier-drop m limit ms h.1

taken_heavier :
    (limit : ℕ) (ms : List TempMiner)
    → IsHeaviestFirst ms
    → All (λ m. NoneHeavier m (drop limit ms)) (take limit ms)
taken_heavier zero ms h = tt
taken_heavier (suc limit) [] h = tt
taken_heavier (suc limit) (m ∷ ms) h = (NoneHeavier-drop m limit ms h.0, taken_heavier limit ms h.1)

-- On a ledger that answers, the query shows as many miners as asked for, or all of them, and leaves
-- out others, none of which is heavier than one it shows. Together these are the miners of the window:
-- each one with a share in it stands there once, with the number and the sum of its shares, and no
-- other. The total of which the percentages are taken is the weight of the shown
-- miners: it falls short of the difficulty of the window by the weight of the others. The difficulty
-- of the window is below 2^63.
pub top_miners-total_weight :
    (start limit : ℕ) (s : Schema) (t : Tables)
    → sum_difficulty (since start t.shares) < 2 ^ 63
    → (shown others : List TempMiner) × (top_miners start limit (live s t)
        ≡ (done (some shown), live s t))
      × (total_weight shown 0 + sum_weight others ≡ sum_difficulty (since start t.shares))
      × All (λ m. NoneHeavier m others) shown
      × ((length shown ≡ limit) ⊎ (others ≡ []))
      × ((addr : Bytes) → IsGrouped (since start t.shares) (shown ++ others) addr)
unfolding top_miners exec
top_miners-total_weight start limit s t h =
    let window : List Share = since start t.shares in
    let sorted : List TempMiner = heaviest_first (miner_groups window) in
    let whole : sum_weight sorted ≡ sum_difficulty window =
      sum_weight-heaviest_first (miner_groups window) ∙ sum_weight-miner_groups window in
    let parts : sum_weight (take limit sorted) + sum_weight (drop limit sorted)
        ≡ sum_difficulty window =
      sym (sum_weight-append (take limit sorted) (drop limit sorted))
      ∙ ap sum_weight (take-append-drop limit sorted)
      ∙ whole in
    let ok : all_fit (miner_groups window) ≡ true =
      light_fit (miner_groups window) (omega (arith, sum_weight-miner_groups window)) in
    (
      take limit sorted,
      drop limit sorted,
      rw ok refl,
      omega (arith, parts, total_weight-sum_weight (take limit sorted) 0 (omega (arith, parts))),
      taken_heavier limit sorted (heaviest_first-IsHeaviestFirst (miner_groups window)),
      take_full limit sorted,
      λ addr.
          subst (λ ms. IsGrouped window ms addr) (sym (take-append-drop limit sorted))
            (heaviest_first-IsGrouped window addr),
    )
