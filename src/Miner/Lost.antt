-- ===== src/Miner/Lost.antt =====
-- The rows of cmd/slave/verify_queue.go that no worker has, over all interleavings, with restarts.
use go_pool.Base.{
  All-middle, ℕ, ◌-◌, ◌≡◌, ◌≢◌, inl, inr, refl, ap, subst, Bool, true, false, Option, some, All,
}
use go_pool.Base.Bytes.{Bytes}
use go_pool.Miner.Queue.{
  CalcPowParams, ShareToVerify, QueuedVerification, VerifyQueue, processing, is_pending, is_done,
  take_next, finish_row, start_row, update_row, submit, cleanup, nanos_per_hour,
}
use go_pool.Miner.Rows.{
  Among, IsAscending, IsAscending-append, IsAscending-update_row, IsAscending-cleanup_rows,
  Among-unique, Among-append, Among-update_row, Among-cleanup_rows, next_pending-Among,
}
use go_pool.Miner.Workers.{
  Workers, Step, Steps, submits, takes, finishes, cleans, restarts, done, more, Judged,
  Judged-finish, taken, take_next-some,
}

-- A row that is processing and that no worker has: its worker ended, or its verdict was not stored.
pub record IsLost (r : QueuedVerification) (s : Workers) : Type 0 where
  pub among : Among r s.0.rows
  pub is_processing : r.status ≡ processing
  pub untaken : All (λ x. x.id ≢ r.id) s.1
  pub ascending : IsAscending 0 s.0.next_id s.0.rows

-- A row that stays among the rows while others change, by a function that keeps the ids.
Keeps : QueuedVerification → VerifyQueue → Type 0
Keeps r q = Among r q.rows × IsAscending 0 q.next_id q.rows

Keeps-update_row :
    (r : QueuedVerification) (q : VerifyQueue) (id : ℕ)
    (f : QueuedVerification → QueuedVerification)
    → ((x : QueuedVerification) → (f x).id ≡ x.id)
    → id ≢ r.id
    → Keeps r q
    → Keeps r (record q { rows = update_row f id q.rows })
unfolding Keeps
Keeps-update_row r q id f same apart (m, a) =
    (Among-update_row id f r q.rows apart m, IsAscending-update_row 0 q.next_id id f q.rows same a)

Keeps-Judged :
    (r : QueuedVerification) (q q' : VerifyQueue) (id : ℕ)
    → id ≢ r.id
    → Judged id q q'
    → Keeps r q
    → Keeps r q'
unfolding Keeps Judged
Keeps-Judged r q q' id apart (n, inl e) (m, a) = rw (e, n) (m, a)
Keeps-Judged r q q' id apart (n, inr (status, (is, (now, e)))) k =
    rw (e, n) (Keeps-update_row r q id (finish_row status now) (λ x. refl) apart k)

-- A row that a worker takes is pending, so it is another one.
taken_apart :
    (now : ℕ) (r : QueuedVerification) (q : VerifyQueue) (x : QueuedVerification) (q' : VerifyQueue)
    → take_next now q ≡ some (x, q')
    → r.status ≡ processing
    → Keeps r q
    → (x.id ≢ r.id) × Keeps r q'
unfolding Keeps taken
taken_apart now r q x q' e is k =
    let (f, g) = take_next-some now q x q' e in
    let (m, is_x) = next_pending-Among q.rows x f in
    let apart : x.id ≢ r.id = λ h.
      let same : x ≡ r = Among-unique 0 q.next_id x r q.rows k.1 m k.0 h in
      let is_r : is_pending r.status ≡ true = subst (λ z. is_pending z.status ≡ true) same is_x in
      let isnt : is_pending r.status ≡ false = ap is_pending is in cc in
    (
      apart,
      subst (λ z. Keeps r z) g (Keeps-update_row r q x.id (start_row now) (λ y. refl) apart k),
    )

Keeps-submit :
    (works : Bool) (now : ℕ) (share : ShareToVerify) (r : QueuedVerification) (q : VerifyQueue)
    → Keeps r q
    → Keeps r (submit works now share q)
unfolding submit Keeps
Keeps-submit false now share r q k = k
Keeps-submit true now share r q (m, a) =
    (Among-append r q.rows _ m, IsAscending-append 0 q.next_id q.rows _ refl a)

Keeps-cleanup :
    (now : ℕ) (r : QueuedVerification) (q : VerifyQueue)
    → is_done r.status ≡ false
    → Keeps r q
    → Keeps r (cleanup now q)
unfolding cleanup Keeps
Keeps-cleanup now r q undone (m, a) = (
  Among-cleanup_rows (now - nanos_per_hour) r q.rows undone m,
  IsAscending-cleanup_rows 0 q.next_id (now - nanos_per_hour) q.rows a,
)

keeps : (r : QueuedVerification) (s : Workers) → IsLost r s → Keeps r s.0
unfolding Keeps
keeps r s l = (l.among, l.ascending)

lost :
    (r : QueuedVerification) (s : Workers)
    → r.status ≡ processing
    → All (λ x. x.id ≢ r.id) s.1
    → Keeps r s.0
    → IsLost r s
unfolding Keeps
lost r s is untaken (m, a) = record {
  among = m;
  is_processing = is;
  untaken = untaken;
  ascending = a;
}

module _ (calc_pow : CalcPowParams → Option Bytes) where
  Step-IsLost :
      (r : QueuedVerification) (s t : Workers) → Step calc_pow s t → IsLost r s → IsLost r t
  Step-IsLost r s t (submits works now share q busy) l =
      lost r t l.is_processing l.untaken (Keeps-submit works now share r q (keeps r s l))
  Step-IsLost r s t (takes now q busy x q' e) l =
      let (apart, k) = taken_apart now r q x q' e l.is_processing (keeps r s l) in
      lost r t l.is_processing (apart, l.untaken) k
  Step-IsLost r s t (finishes stored started now q front back x) l =
      let (apart, untaken) = All-middle (λ y. y.id ≢ r.id) front back x l.untaken in
      lost r t l.is_processing untaken (
        Keeps-Judged r q t.0 x.id apart (Judged-finish calc_pow stored started now x q)
          (keeps r s l))
  Step-IsLost r s t (cleans now q busy) l =
      lost r t l.is_processing l.untaken
        (Keeps-cleanup now r q (ap is_done l.is_processing) (keeps r s l))
  Step-IsLost r s t (restarts q busy) l = lost r t l.is_processing tt (keeps r s l)

  -- A row that is processing and that no worker has stays so, whatever the workers do from then on:
  -- its share is never verified, and the row is never cleaned.
  pub Steps-IsLost :
      (r : QueuedVerification) (s t : Workers) → Steps calc_pow s t → IsLost r s → IsLost r t
  Steps-IsLost r s t (done u) l = l
  Steps-IsLost r s t (more u v w one rest) l = Steps-IsLost r v w rest (Step-IsLost r u v one l)
