-- ===== src/Ledger/Shares/Miners.antt =====
-- ledger.go: the shares of one miner, in the order of the queries.
use go_pool.Base.{
  ℕ, ◌≤◌, ◌≡◌, refl, ap, ◌∙◌, true, List, [], ◌∷◌, leb, if◌then◌else◌, Bool-cases, inl, inr, arith,
}
use go_pool.Base.Bytes.{Bytes, bytes_eq}
use go_pool.Ledger.Store.{Share}
use go_pool.Ledger.Shares.{since, place, newest_first, of_miner}
use go_pool.Ledger.Shares.Window.{
  NoneNewer, NoneNewer-trans, IsNewestFirst, newest_first-IsNewestFirst,
}

place_front : (x : Share) (ys : List Share) → NoneNewer x ys → place x ys ≡ x ∷ ys
unfolding place
place_front x [] h = refl
place_front x (y ∷ ys) h =
    let older : leb y.timestamp x.timestamp ≡ true = ground (arith, h.0) in rw older refl

NoneNewer-of_miner :
    (addr : Bytes) (x : Share) (ys : List Share) → NoneNewer x ys → NoneNewer x (of_miner addr ys)
NoneNewer-of_miner addr x [] h = tt
NoneNewer-of_miner addr x (y ∷ ys) h = elim (Bool-cases (bytes_eq y.miner_addr addr)) [
  | inl own ↦ rw own (h.0, NoneNewer-of_miner addr x ys h.1)
  | inr other ↦ rw other (NoneNewer-of_miner addr x ys h.1)
]

of_miner-place :
    (addr : Bytes) (x : Share) (ys : List Share)
    → IsNewestFirst ys
    → of_miner addr (place x ys)
      ≡ (if bytes_eq x.miner_addr addr then place x (of_miner addr ys) else of_miner addr ys)
unfolding place
of_miner-place addr x [] h = refl
of_miner-place addr x (y ∷ ys) h = elim (Bool-cases (leb y.timestamp x.timestamp)) [
  | inl in_front ↦
      let older : y.timestamp ≤ x.timestamp = ground arith in
      let all_older : NoneNewer x (y ∷ ys) = (older, NoneNewer-trans x y ys older h.0) in
      rw in_front
        (in_front_of (of_miner addr (y ∷ ys)) (NoneNewer-of_miner addr x (y ∷ ys) all_older))
  | inr behind ↦ ground (arith, of_miner-place addr x ys h.1)
]
  where
    in_front_of :
        (zs : List Share)
        → NoneNewer x zs
        → (if bytes_eq x.miner_addr addr then x ∷ zs else zs)
          ≡ (if bytes_eq x.miner_addr addr then place x zs else zs)
    in_front_of zs k = rw (place_front x zs k) refl

pub of_miner-newest_first :
    (addr : Bytes) (xs : List Share)
    → of_miner addr (newest_first xs) ≡ newest_first (of_miner addr xs)
unfolding newest_first
of_miner-newest_first addr [] = refl
of_miner-newest_first addr (x ∷ xs) =
    of_miner-place addr x (newest_first xs) (newest_first-IsNewestFirst xs)
    ∙ elim (Bool-cases (bytes_eq x.miner_addr addr)) [
      | inl own ↦ rw own (ap (place x) (of_miner-newest_first addr xs))
      | inr other ↦ rw other (of_miner-newest_first addr xs)
    ]

pub of_miner-since :
    (addr : Bytes) (start : ℕ) (xs : List Share)
    → of_miner addr (since start xs) ≡ since start (of_miner addr xs)
of_miner-since addr start [] = refl
of_miner-since addr start (x ∷ xs) = ground (arith, of_miner-since addr start xs)
