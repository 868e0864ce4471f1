-- ===== src/Miner/Order.antt =====
-- The order of cmd/slave/verify_queue.go: which row a worker takes.
use go_pool.Base.{
  ℕ, ◌≤◌, ◌≡◌, inl, inr, sym, subst, true, false, List, [], ◌∷◌, Option, none, some, leb,
  if◌then◌else◌, All, Bool-cases, arith,
}
use go_pool.Miner.Queue.{earlier, QueuedVerification, is_pending, next_pending}

-- A pending row no older than `t`.
abbrev pub IsLater : ℕ → QueuedVerification → Type 0
IsLater t x = is_pending x.status ≡ true → t ≤ x.submitted_at

IsLater-All :
    (s t : ℕ) (rows : List QueuedVerification) → s ≤ t → All (IsLater t) rows → All (IsLater s) rows
IsLater-All s t [] h all = tt
IsLater-All s t (x ∷ xs) h (now, all) = ((λ is. omega (arith, h, now is)), IsLater-All s t xs h all)

-- No row is pending, or the one that is found is, and no other is older.
abbrev pub IsOldest : List QueuedVerification → Option QueuedVerification → Type 0
IsOldest rows none = All (λ x. is_pending x.status ≡ false) rows
IsOldest rows (some y) = (is_pending y.status ≡ true) × All (IsLater y.submitted_at) rows

IsLater-none :
    (t : ℕ) (rows : List QueuedVerification)
    → All (λ x. is_pending x.status ≡ false) rows
    → All (IsLater t) rows
IsLater-none t [] h = tt
IsLater-none t (x ∷ xs) (not_now, h) = ((λ is. cc), IsLater-none t xs h)

IsOldest-earlier :
    (x : QueuedVerification) (xs : List QueuedVerification) (o : Option QueuedVerification)
    → is_pending x.status ≡ true
    → IsOldest xs o
    → IsOldest (x ∷ xs) (some (earlier x o))
IsOldest-earlier x xs none is h = (is, ((λ _. omega arith), IsLater-none x.submitted_at xs h))
IsOldest-earlier x xs (some y) is (y_is, h) =
    elim (Bool-cases (leb x.submitted_at y.submitted_at)) [
      | inl e ↦
          subst (λ b. IsOldest (x ∷ xs) (some (if b then x else y))) (sym e)
            (
              is,
              ((λ z. omega arith), IsLater-All x.submitted_at y.submitted_at xs (ground arith) h),
            )
      | inr e ↦
          subst (λ b. IsOldest (x ∷ xs) (some (if b then x else y))) (sym e)
            (y_is, ((λ z. ground arith), h))
    ]

IsOldest-not :
    (x : QueuedVerification) (xs : List QueuedVerification) (o : Option QueuedVerification)
    → is_pending x.status ≡ false
    → IsOldest xs o
    → IsOldest (x ∷ xs) o
IsOldest-not x xs none isnt h = (isnt, h)
IsOldest-not x xs (some y) isnt (y_is, h) = (y_is, ((λ is. cc), h))

-- The row that a worker finds is pending, and no pending row is older; where it finds none, no row is
-- pending.
pub next_pending-IsOldest : (rows : List QueuedVerification) → IsOldest rows (next_pending rows)
unfolding next_pending
next_pending-IsOldest [] = tt
next_pending-IsOldest (x ∷ xs) = elim (Bool-cases (is_pending x.status)) [
  | inl is ↦ rw is (IsOldest-earlier x xs (next_pending xs) is (next_pending-IsOldest xs))
  | inr isnt ↦ rw isnt (IsOldest-not x xs (next_pending xs) isnt (next_pending-IsOldest xs))
]
