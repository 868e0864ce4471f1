-- ===== src/Miner/Life.antt =====
-- The life of a row of cmd/slave/verify_queue.go: the steps of the workers against the states that a row
-- may go through.
use Prim.{absurd}
use go_pool.Base.{
  ℕ, ◌+◌, ◌≡◌, ◌≢◌, inl, inr, refl, subst, true, false, List, [], ◌∷◌, ◌++◌, Option, none, some,
  ◌==◌, ==_refl, if◌then◌else◌, Bool-cases, arith, ◌<◌, ◌&&◌,
}
use go_pool.Miner.Queue.{
  QueuedVerification, Status, pending, processing, is_done, update_row, cleanup_rows, before,
}
use go_pool.Miner.Rows.{Among, IsAscending, IsAscending-cleanup_rows, Among-above}

-- The status of the row with an id, where there is one.
unfoldable pub status_of : ℕ → List QueuedVerification → Option Status
status_of id [] = none
status_of id (x ∷ xs) = let rest = status_of id xs in if x.id == id then some x.status else rest

-- What one step may do to the status of an id.
pub data Advance : Option Status → Option Status → Type 0 where
  stays : (o : Option Status) → Advance o o
  entered : Advance none (some pending)
  started : Advance (some pending) (some processing)
  judged : (s : Status) → is_done s ≡ true → Advance (some processing) (some s)
  dropped : (s : Status) → is_done s ≡ true → Advance (some s) none

status_of-below :
    (id low high : ℕ) (rows : List QueuedVerification)
    → id < low
    → IsAscending low high rows
    → status_of id rows ≡ none
unfolding status_of
status_of-below id low high [] h a = refl
status_of-below id low high (x ∷ xs) h (now, a) =
    let apart : (x.id == id) ≡ false = ground (arith, h, now) in
    rw apart (status_of-below id (x.id + 1) high xs (omega (arith, h, now)) a)

pub status_of-Among :
    (low high : ℕ) (r : QueuedVerification) (rows : List QueuedVerification)
    → IsAscending low high rows
    → Among r rows
    → status_of r.id rows ≡ some r.status
unfolding status_of
status_of-Among low high r [] a m = absurd m
status_of-Among low high r (x ∷ xs) (now, a) (inl e) =
    subst (λ y. status_of y.id (x ∷ xs) ≡ some y.status) e (rw (==_refl x.id) refl)
status_of-Among low high r (x ∷ xs) (now, a) (inr m) =
    let apart : (x.id == r.id) ≡ false = ground (arith, Among-above (x.id + 1) high r xs a m) in
    rw apart (status_of-Among (x.id + 1) high r xs a m)

pub status_of-other :
    (id id' : ℕ) (f : QueuedVerification → QueuedVerification) (rows : List QueuedVerification)
    → ((x : QueuedVerification) → (f x).id ≡ x.id)
    → id' ≢ id
    → status_of id (update_row f id' rows) ≡ status_of id rows
unfolding status_of
status_of-other id id' f [] same apart = refl
status_of-other id id' f (x ∷ xs) same apart =
    let rest = status_of-other id id' f xs same apart in
    elim (Bool-cases (x.id == id')) [
      | inl e ↦
          let other : (x.id == id) ≡ false = ground (arith, apart) in
          rw e (rw (same x) (rw (other, rest) refl))
      | inr e ↦ rw e (rw rest refl)
    ]

pub status_of-update_row :
    (id : ℕ) (st s : Status) (f : QueuedVerification → QueuedVerification)
    (rows : List QueuedVerification)
    → ((x : QueuedVerification) → ((f x).id ≡ x.id) × ((f x).status ≡ st))
    → status_of id rows ≡ some s
    → status_of id (update_row f id rows) ≡ some st
unfolding status_of
status_of-update_row id st s f [] same h = cc
status_of-update_row id st s f (x ∷ xs) same h = elim (Bool-cases (x.id == id)) [
  | inl e ↦ rw e (rw ((same x).0, (same x).1) (rw e refl))
  | inr e ↦ rw e (rw e (status_of-update_row id st s f xs same (rw e at h)))
]

pub status_of-append :
    (id : ℕ) (s : Status) (rows more : List QueuedVerification)
    → status_of id rows ≡ some s
    → status_of id (rows ++ more) ≡ some s
unfolding status_of
status_of-append id s [] more h = cc
status_of-append id s (x ∷ xs) more h = elim (Bool-cases (x.id == id)) [
  | inl e ↦ rw e (rw e at h)
  | inr e ↦ rw e (status_of-append id s xs more (rw e at h))
]

pub Advance-append :
    (id : ℕ) (rows : List QueuedVerification) (x : QueuedVerification)
    → x.status ≡ pending
    → Advance (status_of id rows) (status_of id (rows ++ (x ∷ [])))
unfolding status_of
Advance-append id [] x is = elim (Bool-cases (x.id == id)) [
  | inl e ↦ rw e (rw is entered)
  | inr e ↦ rw e (stays none)
]
Advance-append id (y ∷ ys) x is = elim (Bool-cases (y.id == id)) [
  | inl e ↦ rw e (stays (some y.status))
  | inr e ↦ rw e (Advance-append id ys x is)
]

some_same : (s t : Status) → ◌≡◌ {A = Option Status} (some s) (some t) → s ≡ t
some_same s t e = cc

both_done :
    (x : QueuedVerification) (cutoff : ℕ)
    → (is_done x.status && before cutoff x.completed_at) ≡ true
    → is_done x.status ≡ true
both_done x cutoff e = ground arith

both_ways : (s t : Status) → is_done s ≡ true → s ≡ t → is_done t ≡ false → ⊥
both_ways s t is same isnt =
    let is_t : is_done t ≡ true = subst (λ z. is_done z ≡ true) same is in cc

pub status_of-cleanup_rows :
    (cutoff id : ℕ) (s : Status) (rows : List QueuedVerification)
    → is_done s ≡ false
    → status_of id rows ≡ some s
    → status_of id (cleanup_rows cutoff rows) ≡ some s
unfolding status_of cleanup_rows
status_of-cleanup_rows cutoff id s [] undone h = cc
status_of-cleanup_rows cutoff id s (x ∷ xs) undone h =
    elim (Bool-cases (is_done x.status && before cutoff x.completed_at)) [
      | inl e ↦ elim (Bool-cases (x.id == id)) [
        | inl g ↦
            let same : x.status ≡ s = some_same x.status s (rw g at h) in
            absurd (both_ways x.status s (both_done x cutoff e) same undone)
        | inr g ↦ rw e (status_of-cleanup_rows cutoff id s xs undone (rw g at h))
      ]
      | inr e ↦ elim (Bool-cases (x.id == id)) [
        | inl g ↦ rw e (rw g (rw g at h))
        | inr g ↦ rw e (rw g (status_of-cleanup_rows cutoff id s xs undone (rw g at h)))
      ]
    ]

pub Advance-cleanup_rows :
    (cutoff id low high : ℕ) (rows : List QueuedVerification)
    → IsAscending low high rows
    → Advance (status_of id rows) (status_of id (cleanup_rows cutoff rows))
unfolding status_of cleanup_rows
Advance-cleanup_rows cutoff id low high [] a = stays none
Advance-cleanup_rows cutoff id low high (x ∷ xs) (now, a) =
    let rest = Advance-cleanup_rows cutoff id (x.id + 1) high xs a in
    elim (Bool-cases (is_done x.status && before cutoff x.completed_at)) [
      | inl e ↦ elim (Bool-cases (x.id == id)) [
        | inl g ↦
            let gone : status_of id (cleanup_rows cutoff xs) ≡ none =
              status_of-below id (x.id + 1) high (cleanup_rows cutoff xs) (ground arith)
                (IsAscending-cleanup_rows (x.id + 1) high cutoff xs a) in
            rw e (rw g (rw gone (dropped x.status (both_done x cutoff e))))
        | inr g ↦ rw e (rw g rest)
      ]
      | inr e ↦ elim (Bool-cases (x.id == id)) [
        | inl g ↦ rw e (rw g (stays (some x.status)))
        | inr g ↦ rw e (rw g rest)
      ]
    ]
