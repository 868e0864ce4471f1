-- ===== src/Miner/Rows.antt =====
-- The rows of cmd/slave/verify_queue.go while several workers take and finish them.
use go_pool.Base.{
  ℕ, ◌+◌, ◌≤◌, ◌≡◌, ◌≢◌, ◌⊎◌, inl, inr, sym, ap, subst, ◌∙◌, true, false, ◌&&◌, List, [], ◌∷◌, ◌++◌,
  Option, none, some, ◌==◌, leb, Bool-cases, arith,
}
use Prim.{absurd}
use go_pool.Miner.Queue.{
  QueuedVerification, is_pending, is_done, earlier, next_pending, update_row, cleanup_rows, before,
}

-- The row is one of the list.
abbrev pub Among : QueuedVerification → List QueuedVerification → Type 0
Among r [] = ⊥
Among r (x ∷ xs) = (x ≡ r) ⊎ Among r xs

-- The ids ascend from `low` on, and are below `high`.
abbrev pub IsAscending : ℕ → ℕ → List QueuedVerification → Type 0
IsAscending low high [] = low ≤ high
IsAscending low high (x ∷ xs) = (low ≤ x.id) × IsAscending (x.id + 1) high xs

IsAscending-weaken :
    (l k high : ℕ) (rows : List QueuedVerification)
    → l ≤ k
    → IsAscending k high rows
    → IsAscending l high rows
IsAscending-weaken l k high [] h a = omega (arith, h, a)
IsAscending-weaken l k high (x ∷ xs) h (now, a) = (omega (arith, h, now), a)

pub IsAscending-append :
    (low high : ℕ) (rows : List QueuedVerification) (x : QueuedVerification)
    → x.id ≡ high
    → IsAscending low high rows
    → IsAscending low (high + 1) (rows ++ (x ∷ []))
IsAscending-append low high [] x e a = (omega (arith, e, a), omega (arith, e))
IsAscending-append low high (y ∷ ys) x e (now, a) =
    (now, IsAscending-append (y.id + 1) high ys x e a)

pub IsAscending-update_row :
    (low high id : ℕ) (f : QueuedVerification → QueuedVerification) (rows : List QueuedVerification)
    → ((x : QueuedVerification) → (f x).id ≡ x.id)
    → IsAscending low high rows
    → IsAscending low high (update_row f id rows)
IsAscending-update_row low high id f [] same a = a
IsAscending-update_row low high id f (x ∷ xs) same (now, a) =
    let rest = IsAscending-update_row (x.id + 1) high id f xs same a in
    elim (Bool-cases (x.id == id)) [
      | inl e ↦ rw e (omega (arith, same x, now), rw (same x) rest)
      | inr e ↦ rw e (now, rest)
    ]

pub IsAscending-cleanup_rows :
    (low high cutoff : ℕ) (rows : List QueuedVerification)
    → IsAscending low high rows
    → IsAscending low high (cleanup_rows cutoff rows)
unfolding cleanup_rows
IsAscending-cleanup_rows low high cutoff [] a = a
IsAscending-cleanup_rows low high cutoff (x ∷ xs) (now, a) =
    let rest = IsAscending-cleanup_rows (x.id + 1) high cutoff xs a in
    elim (Bool-cases (is_done x.status && before cutoff x.completed_at)) [
      | inl e ↦ rw e (
          IsAscending-weaken low (x.id + 1) high (cleanup_rows cutoff xs) (omega (arith, now)) rest)
      | inr e ↦ rw e (now, rest)
    ]

pub Among-above :
    (low high : ℕ) (r : QueuedVerification) (rows : List QueuedVerification)
    → IsAscending low high rows
    → Among r rows
    → low ≤ r.id
Among-above low high r [] a m = absurd m
Among-above low high r (x ∷ xs) (now, a) (inl e) = subst (λ y. low ≤ y.id) e now
Among-above low high r (x ∷ xs) (now, a) (inr m) =
    omega (arith, now, Among-above (x.id + 1) high r xs a m)

-- Rows of one id are one row.
pub Among-unique :
    (low high : ℕ) (r s : QueuedVerification) (rows : List QueuedVerification)
    → IsAscending low high rows
    → Among r rows
    → Among s rows
    → r.id ≡ s.id
    → r ≡ s
Among-unique low high r s [] a m k e = absurd m
Among-unique low high r s (x ∷ xs) (now, a) (inl m) (inl k) e = sym m ∙ k
Among-unique low high r s (x ∷ xs) (now, a) (inl m) (inr k) e =
    absurd (omega (arith, ap (λ y. y.id) m, Among-above (x.id + 1) high s xs a k, e))
Among-unique low high r s (x ∷ xs) (now, a) (inr m) (inl k) e =
    absurd (omega (arith, ap (λ y. y.id) k, Among-above (x.id + 1) high r xs a m, e))
Among-unique low high r s (x ∷ xs) (now, a) (inr m) (inr k) e =
    Among-unique (x.id + 1) high r s xs a m k e

pub Among-append :
    (r : QueuedVerification) (rows more : List QueuedVerification)
    → Among r rows
    → Among r (rows ++ more)
Among-append r [] more m = absurd m
Among-append r (x ∷ xs) more (inl e) = inl e
Among-append r (x ∷ xs) more (inr m) = inr (Among-append r xs more m)

pub Among-update_row :
    (id : ℕ) (f : QueuedVerification → QueuedVerification) (r : QueuedVerification)
    (rows : List QueuedVerification)
    → id ≢ r.id
    → Among r rows
    → Among r (update_row f id rows)
Among-update_row id f r [] apart m = absurd m
Among-update_row id f r (x ∷ xs) apart (inr m) = inr (Among-update_row id f r xs apart m)
Among-update_row id f r (x ∷ xs) apart (inl e) =
    let other : (x.id == id) ≡ false =
      subst (λ y. (y.id == id) ≡ false) (sym e) (ground (arith, apart)) in
    inl (rw other e)

pub Among-cleanup_rows :
    (cutoff : ℕ) (r : QueuedVerification) (rows : List QueuedVerification)
    → is_done r.status ≡ false
    → Among r rows
    → Among r (cleanup_rows cutoff rows)
unfolding cleanup_rows
Among-cleanup_rows cutoff r [] undone m = absurd m
Among-cleanup_rows cutoff r (x ∷ xs) undone (inl e) =
    let kept : is_done x.status ≡ false = subst (λ y. is_done y.status ≡ false) (sym e) undone in
    rw kept (inl e)
Among-cleanup_rows cutoff r (x ∷ xs) undone (inr m) =
    let rest = Among-cleanup_rows cutoff r xs undone m in
    elim (Bool-cases (is_done x.status && before cutoff x.completed_at)) [
      | inl e ↦ rw e rest
      | inr e ↦ rw e (inr rest)
    ]

Among-earlier :
    (x : QueuedVerification) (o : Option QueuedVerification) (y : QueuedVerification)
    → earlier x o ≡ y
    → (x ≡ y) ⊎ (o ≡ some y)
Among-earlier x none y e = inl e
Among-earlier x (some z) y e = elim (Bool-cases (leb x.submitted_at z.submitted_at)) [
  | inl h ↦ inl (rw h at e)
  | inr h ↦ inr (ap some (rw h at e))
]

-- The row that is found is one of the list, and is pending.
pub next_pending-Among :
    (rows : List QueuedVerification) (y : QueuedVerification)
    → next_pending rows ≡ some y
    → Among y rows × (is_pending y.status ≡ true)
unfolding next_pending
next_pending-Among [] y e = cc
next_pending-Among (x ∷ xs) y e = elim (Bool-cases (is_pending x.status)) [
  | inl is ↦
      let found : some (earlier x (next_pending xs)) ≡ some y = rw is at e in
      elim (Among-earlier x (next_pending xs) y cc) [
        | inl f ↦ (inl f, subst (λ z. is_pending z.status ≡ true) f is)
        | inr f ↦ let (m, is') = next_pending-Among xs y f in (inr m, is')
      ]
  | inr isnt ↦ let (m, is') = next_pending-Among xs y (rw isnt at e) in (inr m, is')
]
