-- ===== src/Ledger/Shares/Window.antt =====
-- The order of `GetSharesInWindow`'s answer.
use go_pool.Base.{◌≤◌, List, [], ◌∷◌, ◌++◌, All, leb, Bool-cases, inl, inr, arith}
use go_pool.Ledger.Store.{Share}
use go_pool.Ledger.Shares.{place, newest_first}

-- No share of the list is newer than this one.
abbrev pub NoneNewer : Share → List Share → Type 0
NoneNewer x ys = All (λ y. y.timestamp ≤ x.timestamp) ys

-- Each share is at least as new as those behind it.
abbrev pub IsNewestFirst : List Share → Type 0
IsNewestFirst [] = Unit {0}
IsNewestFirst (x ∷ xs) = NoneNewer x xs × IsNewestFirst xs

pub NoneNewer-trans :
    (x y : Share) (zs : List Share) → y.timestamp ≤ x.timestamp → NoneNewer y zs → NoneNewer x zs
NoneNewer-trans x y [] h k = tt
NoneNewer-trans x y (z ∷ zs) h k = (omega (arith, k.0), NoneNewer-trans x y zs h k.1)

NoneNewer-place :
    (x y : Share) (zs : List Share)
    → y.timestamp ≤ x.timestamp
    → NoneNewer x zs
    → NoneNewer x (place y zs)
unfolding place
NoneNewer-place x y [] h k = (h, tt)
NoneNewer-place x y (z ∷ zs) h k = elim (Bool-cases (leb z.timestamp y.timestamp)) [
  | inl in_front ↦ rw in_front (h, k)
  | inr behind ↦ rw behind (k.0, NoneNewer-place x y zs h k.1)
]

IsNewestFirst-place : (y : Share) (zs : List Share) → IsNewestFirst zs → IsNewestFirst (place y zs)
unfolding place
IsNewestFirst-place y [] h = (tt, tt)
IsNewestFirst-place y (z ∷ zs) h = elim (Bool-cases (leb z.timestamp y.timestamp)) [
  | inl in_front ↦
      let older : z.timestamp ≤ y.timestamp = ground arith in
      rw in_front ((older, NoneNewer-trans y z zs older h.0), h)
  | inr behind ↦
      let newer : y.timestamp ≤ z.timestamp = ground arith in
      rw behind (NoneNewer-place z y zs newer h.0, IsNewestFirst-place y zs h.1)
]

pub newest_first-IsNewestFirst : (xs : List Share) → IsNewestFirst (newest_first xs)
unfolding newest_first
newest_first-IsNewestFirst [] = tt
newest_first-IsNewestFirst (x ∷ xs) =
    IsNewestFirst-place x (newest_first xs) (newest_first-IsNewestFirst xs)

NoneNewer-back : (x : Share) (xs ys : List Share) → NoneNewer x (xs ++ ys) → NoneNewer x ys
NoneNewer-back x [] ys h = h
NoneNewer-back x (z ∷ xs) ys h = NoneNewer-back x xs ys h.1

-- In a list with the newest first, nothing in the back part is newer than a share in front.
pub IsNewestFirst-append :
    (xs ys : List Share) → IsNewestFirst (xs ++ ys) → All (λ x. NoneNewer x ys) xs
IsNewestFirst-append [] ys h = tt
IsNewestFirst-append (x ∷ xs) ys h = (NoneNewer-back x xs ys h.0, IsNewestFirst-append xs ys h.1)
