-- ===== src/Ledger/Reports/Single.antt =====
-- ledger.go `GROUP BY miner_address`: the group of one miner among the groups of a window.
use go_pool.Base.{
  ℕ, zero, suc, ◌+◌, ◌≤◌, ◌≡◌, ◌⊎◌, refl, sym, ap, ◌∙◌, true, false, List, [], ◌∷◌, if◌then◌else◌,
  leb, length, Bool-cases, inl, inr, arith, map, take, drop,
}
use go_pool.Base.Bytes.{Bytes, bytes_eq, bytes_eq_iff}
use go_pool.Ledger.Store.{Share}
use go_pool.Ledger.Shares.{of_miner, distinct, miners, contains_bytes}
use go_pool.Ledger.Reports.{
  TempMiner, temp_miner, miner_groups, sum_difficulty, place_miner, heaviest_first,
}
use go_pool.Ledger.Reports.Groups.{hits, hits-distinct, bytes_eq_sym}

-- The groups of a miner.
abbrev pub groups_of : Bytes → List TempMiner → List TempMiner
groups_of addr [] = []
groups_of addr (m ∷ ms) =
    let rest = groups_of addr ms in if bytes_eq m.addr addr then m ∷ rest else rest

-- The miner has no share in the window and no group, or a share and one group, which has the number
-- and the sum of its shares.
abbrev pub IsGrouped : List Share → List TempMiner → Bytes → Type 0
IsGrouped window ms addr =
    ((of_miner addr window ≡ []) × (groups_of addr ms ≡ []))
    ⊎ ((x : Share) × (xs : List Share) × (m : TempMiner) × (of_miner addr window ≡ x ∷ xs)
        × (groups_of addr ms ≡ m ∷ [])
        × (m.shares_in_window ≡ length (x ∷ xs))
        × (m.pplns_weight ≡ sum_difficulty (x ∷ xs)))

-- A miner that stands in front of its own group again would have two.
abbrev IsApart : Bytes → TempMiner → List TempMiner → Type 0
IsApart addr m ms = (bytes_eq m.addr addr ≡ false) ⊎ (groups_of addr ms ≡ [])

abbrev IsSingle : Bytes → List TempMiner → Type 0
IsSingle addr [] = Unit {0}
IsSingle addr (m ∷ ms) = IsApart addr m ms × IsSingle addr ms

groups_of-place_miner :
    (addr : Bytes) (m : TempMiner) (ns : List TempMiner)
    → IsApart addr m ns
    → groups_of addr (place_miner m ns) ≡ groups_of addr (m ∷ ns)
unfolding place_miner
groups_of-place_miner addr m [] h = refl
groups_of-place_miner addr m (n ∷ ns) h = elim (Bool-cases (leb n.pplns_weight m.pplns_weight)) [
  | inl front ↦ rw front refl
  | inr back ↦ elim (Bool-cases (bytes_eq n.addr addr)) [
    | inr other ↦ rw (back, other) (groups_of-place_miner addr m ns (rw other at h))
    | inl own ↦
        let apart : bytes_eq m.addr addr ≡ false = elim h [
          | inl e ↦ e
          | inr none ↦ let none' : n ∷ groups_of addr ns ≡ [] = rw own at none in cc
        ] in
        rw (back, own, apart)
          (ap (λ l. n ∷ l) (groups_of-place_miner addr m ns (inl apart) ∙ rw apart refl))
  ]
]

groups_of-heaviest_first :
    (addr : Bytes) (ms : List TempMiner)
    → IsSingle addr ms
    → groups_of addr (heaviest_first ms) ≡ groups_of addr ms
unfolding heaviest_first
groups_of-heaviest_first addr [] h = refl
groups_of-heaviest_first addr (m ∷ ms) h =
    let same : groups_of addr (heaviest_first ms) ≡ groups_of addr ms =
      groups_of-heaviest_first addr ms h.1 in
    let apart : IsApart addr m (heaviest_first ms) = elim h.0 [
      | inl other ↦ inl other
      | inr none ↦ inr (same ∙ none)
    ] in
    groups_of-place_miner addr m (heaviest_first ms) apart
    ∙ ap (λ l. if bytes_eq m.addr addr then m ∷ l else l) same

module _ (window : List Share) (addr : Bytes) where
  groups_of_none :
      (l : List Bytes) → hits addr l ≡ 0 → groups_of addr (map (temp_miner window) l) ≡ []
  groups_of_none [] h = refl
  groups_of_none (a ∷ l) h = elim (Bool-cases (bytes_eq addr a)) [
    | inl own ↦ let h' : 1 + hits addr l ≡ 0 = rw own at h in absurd (omega (arith, h'))
    | inr other ↦
        let h' : 0 + hits addr l ≡ 0 = rw other at h in
        rw (bytes_eq_sym a addr ∙ other) (groups_of_none l (omega (arith, h')))
  ]

  groups_of_one :
      (l : List Bytes)
      → hits addr l ≡ 1
      → groups_of addr (map (temp_miner window) l) ≡ temp_miner window addr ∷ []
  groups_of_one [] h = absurd (omega (arith, h))
  groups_of_one (a ∷ l) h = elim (Bool-cases (bytes_eq addr a)) [
    | inl own ↦
        let h' : 1 + hits addr l ≡ 1 = rw own at h in
        let rest : groups_of addr (map (temp_miner window) l) ≡ [] =
          groups_of_none l (omega (arith, h')) in
        let e : a ≡ addr = sym ((bytes_eq_iff addr a).0 own) in
        rw (bytes_eq_sym a addr ∙ own, rest) (ap (λ k. temp_miner window k ∷ []) e)
    | inr other ↦
        let h' : 0 + hits addr l ≡ 1 = rw other at h in
        rw (bytes_eq_sym a addr ∙ other) (groups_of_one l (omega (arith, h')))
  ]

  groups-IsSingle : (l : List Bytes) → hits addr l ≤ 1 → IsSingle addr (map (temp_miner window) l)
  groups-IsSingle [] h = tt
  groups-IsSingle (a ∷ l) h = elim (Bool-cases (bytes_eq addr a)) [
    | inl own ↦
        let h' : 1 + hits addr l ≤ 1 = rw own at h in
        (inr (groups_of_none l (omega (arith, h'))), groups-IsSingle l (omega (arith, h')))
    | inr other ↦
        let h' : 0 + hits addr l ≤ 1 = rw other at h in
        (inl (bytes_eq_sym a addr ∙ other), groups-IsSingle l (omega (arith, h')))
  ]

of_miner_none :
    (addr : Bytes) (xs : List Share)
    → contains_bytes addr (miners xs) ≡ false
    → of_miner addr xs ≡ []
of_miner_none addr [] h = refl
of_miner_none addr (x ∷ xs) h = elim (Bool-cases (bytes_eq x.miner_addr addr)) [
  | inl own ↦ let h' : true ≡ false = rw own at h in cc
  | inr other ↦ rw other (of_miner_none addr xs (rw other at h))
]

of_miner_some :
    (addr : Bytes) (xs : List Share)
    → contains_bytes addr (miners xs) ≡ true
    → (y : Share) × (ys : List Share) × (of_miner addr xs ≡ y ∷ ys)
of_miner_some addr [] h = cc
of_miner_some addr (x ∷ xs) h = elim (Bool-cases (bytes_eq x.miner_addr addr)) [
  | inl own ↦ (x, of_miner addr xs, rw own refl)
  | inr other ↦ let (y, ys, e) = of_miner_some addr xs (rw other at h) in (y, ys, rw other e)
]

pub heaviest_first-IsGrouped :
    (window : List Share) (addr : Bytes)
    → IsGrouped window (heaviest_first (miner_groups window)) addr
heaviest_first-IsGrouped window addr =
    let l : List Bytes = distinct (miners window) in
    let count = hits-distinct addr (miners window) in
    elim (Bool-cases (contains_bytes addr (miners window))) [
      | inl here ↦
          let one : hits addr l ≡ 1 = count ∙ rw here refl in
          let (x, xs, e) = of_miner_some addr window here in
          inr (
            x,
            xs,
            temp_miner window addr,
            e,
            groups_of-heaviest_first addr (miner_groups window)
                  (groups-IsSingle window addr l (omega (arith, one)))
                ∙ groups_of_one window addr l one,
            ap length e,
            ap sum_difficulty e,
          )
      | inr away ↦
          let none_ : hits addr l ≡ 0 = count ∙ rw away refl in
          inl (
            of_miner_none addr window away,
            groups_of-heaviest_first addr (miner_groups window)
                  (groups-IsSingle window addr l (omega (arith, none_)))
                ∙ groups_of_none window addr l none_,
          )
    ]

-- The first ones are as many as asked for, or nothing is left.
pub take_full : (n : ℕ) (ms : List TempMiner) → (length (take n ms) ≡ n) ⊎ (drop n ms ≡ [])
take_full zero ms = inl refl
take_full (suc n) [] = inr refl
take_full (suc n) (m ∷ ms) = elim (take_full n ms) [ inl e ↦ inl (ap suc e) | inr e ↦ inr e ]
