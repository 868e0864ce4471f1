-- ===== src/Miner/Workers.antt =====
-- The workers of cmd/slave/verify_queue.go: the steps of their interleavings, and what a step does to the
-- table.
use Prim.{absurd}
use go_pool.Base.{
  ℕ, ◌-◌, ◌≡◌, ◌⊎◌, inl, inr, refl, ap, subst, ◌∙◌, Bool, true, false, List, [], ◌∷◌, ◌++◌, Option,
  none, some, Bool-cases, Option-cases,
}
use go_pool.Base.Bytes.{Bytes, bytes_eq}
use go_pool.Miner.Queue.{
  process_next, is_done, CalcPowParams, ShareToVerify, QueuedVerification, VerifyQueue, Status,
  failed, verified, next_pending, take_next, finish, finish_row, start_row, update_row, mark_failed,
  mark_verified, submit, cleanup,
}

-- The queue, and the rows that workers have taken and not finished.
abbrev pub Workers : Type 0
Workers = VerifyQueue × List QueuedVerification

module _ (calc_pow : CalcPowParams → Option Bytes) where
  -- One step: a share is submitted, a worker takes the next row, a worker finishes its row, old rows
  -- are cleaned, or the process restarts on the same table.
  pub data Step : Workers → Workers → Type 0 where
    submits :
        (works : Bool) (now : ℕ) (share : ShareToVerify) (q : VerifyQueue)
        (busy : List QueuedVerification)
        → Step (q, busy) (submit works now share q, busy)
    takes :
        (now : ℕ) (q : VerifyQueue) (busy : List QueuedVerification) (x : QueuedVerification)
        (q' : VerifyQueue)
        → take_next now q ≡ some (x, q')
        → Step (q, busy) (q', x ∷ busy)
    finishes :
        (stored : Bool) (started now : ℕ) (q : VerifyQueue) (front back : List QueuedVerification)
        (x : QueuedVerification)
        → Step (q, front ++ (x ∷ back)) (finish calc_pow stored started now x q, front ++ back)
    cleans :
        (now : ℕ) (q : VerifyQueue) (busy : List QueuedVerification)
        → Step (q, busy) (cleanup now q, busy)
    restarts : (q : VerifyQueue) (busy : List QueuedVerification) → Step (q, busy) (q, [])

  pub data Steps : Workers → Workers → Type 0 where
    done : (s : Workers) → Steps s s
    more : (s t u : Workers) → Step s t → Steps t u → Steps s u

-- A queue whose row of the id got a new verdict, if anything.
unfoldable pub Judged : ℕ → VerifyQueue → VerifyQueue → Type 0
Judged id q q' =
    (q'.next_id ≡ q.next_id)
    × ((q'.rows ≡ q.rows)
        ⊎ ((status : Status) × ((is_done status ≡ true)
              × ((now : ℕ) × (q'.rows ≡ update_row (finish_row status now) id q.rows)))))

Judged-mark_failed :
    (stored : Bool) (now id : ℕ) (q : VerifyQueue) → Judged id q (mark_failed stored now id q)
unfolding mark_failed Judged
Judged-mark_failed true now id q = (refl, inr (failed, (refl, (now, refl))))
Judged-mark_failed false now id q = (refl, inl refl)

Judged-mark_verified :
    (stored : Bool) (now duration id : ℕ) (q : VerifyQueue)
    → Judged id q (mark_verified stored now duration id q)
unfolding Judged
Judged-mark_verified true now duration id q = (refl, inr (verified, (refl, (now, refl))))
Judged-mark_verified false now duration id q = (refl, inl refl)

pub Judged-finish :
    (calc_pow : CalcPowParams → Option Bytes) (stored : Bool) (started now : ℕ)
    (x : QueuedVerification) (q : VerifyQueue)
    → Judged x.id q (finish calc_pow stored started now x q)
unfolding finish
Judged-finish calc_pow stored started now x q = elim (Option-cases (calc_pow x.share.params)) [
  | inl e ↦ rw (e, finish) (Judged-mark_failed stored now x.id q)
  | inr (pow, e) ↦ elim (Bool-cases (bytes_eq pow x.share.expected_result)) [
    | inl f ↦ rw (e, finish) (rw f (Judged-mark_verified stored now (now - started) x.id q))
    | inr f ↦ rw (e, finish) (rw f (Judged-mark_failed stored now x.id q))
  ]
]

-- The state after a worker took a row.
unfoldable pub taken : ℕ → ℕ → VerifyQueue → VerifyQueue
taken now id q = record q { rows = update_row (start_row now) id q.rows }

abbrev Taken : Type 0
Taken = Option (QueuedVerification × VerifyQueue)

pair_same :
    (x y : QueuedVerification) (q q' : VerifyQueue)
    → ◌≡◌ {A = Taken} (some (x, q)) (some (y, q'))
    → (x ≡ y) × (q ≡ q')
pair_same x y q q' e = (cc, cc)

pub take_next-some :
    (now : ℕ) (q : VerifyQueue) (x : QueuedVerification) (q' : VerifyQueue)
    → take_next now q ≡ some (x, q')
    → (next_pending q.rows ≡ some x) × (taken now x.id q ≡ q')
unfolding take_next taken
take_next-some now q x q' e = elim (Option-cases (next_pending q.rows)) [
  | inl f ↦ absurd (let bad : none ≡ some (x, q') = rw (f, take_next) at e in cc)
  | inr (y, f) ↦
      let (same, left) = pair_same y x (taken now y.id q) q' (rw (f, take_next) at e) in
      (f ∙ ap some same, subst (λ z. taken now z.id q ≡ q') same left)
]

-- A worker that nobody interrupts does its two steps, or finds no row.
pub process_next-Steps :
    (calc_pow : CalcPowParams → Option Bytes) (stored : Bool) (begun now : ℕ) (q : VerifyQueue)
    → Steps calc_pow (q, []) (process_next calc_pow stored begun now q, [])
unfolding process_next
process_next-Steps calc_pow stored begun now q = elim (Option-cases (take_next begun q)) [
  | inl e ↦ rw (e, process_next) (done (q, []))
  | inr ((x, q'), e) ↦
      rw (e, process_next)
        (more (q, []) (q', x ∷ []) (finish calc_pow stored begun now x q', [])
          (takes begun q [] x q' e)
          (more (q', x ∷ []) (finish calc_pow stored begun now x q', [])
            (finish calc_pow stored begun now x q', []) (finishes stored begun now q' [] [] x)
            (done (finish calc_pow stored begun now x q', []))))
]
