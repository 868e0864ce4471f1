-- ===== src/Miner/Refines.antt =====
-- The steps of the workers of cmd/slave/verify_queue.go refine the life of a row.
use go_pool.Base.{
  ℕ, ◌-◌, ◌≡◌, ◌≢◌, inl, inr, refl, sym, ap, subst, ◌∙◌, Bool, true, false, List, [], ◌∷◌, ◌++◌,
  Option, some, All, All-map, All-middle, All-zip, ◌==◌, ==_iff, Bool-cases, arith,
}
use go_pool.Base.Bytes.{Bytes}
use go_pool.Miner.Queue.{
  CalcPowParams, ShareToVerify, QueuedVerification, VerifyQueue, Status, pending, processing,
  is_pending, finish_row, start_row, update_row, submit, cleanup, nanos_per_hour,
}
use go_pool.Miner.Rows.{
  IsAscending, IsAscending-append, IsAscending-update_row, IsAscending-cleanup_rows,
  next_pending-Among,
}
use go_pool.Miner.Workers.{
  Workers, Step, Steps, submits, takes, finishes, cleans, restarts, done, more, Judged,
  Judged-finish, taken, take_next-some,
}
use go_pool.Miner.Life.{
  status_of, Advance, stays, started, judged, status_of-Among, status_of-other,
  status_of-update_row, status_of-append, Advance-append, status_of-cleanup_rows,
  Advance-cleanup_rows,
}

-- The rows that workers have are different ones.
abbrev IsApart : List QueuedVerification → Type 0
IsApart [] = Unit
IsApart (x ∷ xs) = All (λ y. y.id ≢ x.id) xs × IsApart xs

IsApart-middle :
    (front back : List QueuedVerification) (x : QueuedVerification)
    → IsApart (front ++ (x ∷ back))
    → All (λ y. y.id ≢ x.id) (front ++ back) × IsApart (front ++ back)
IsApart-middle [] back x h = h
IsApart-middle (z ∷ zs) back x (now, h) =
    let (others, rest) = IsApart-middle zs back x h in
    let (apart, now') = All-middle (λ y. y.id ≢ z.id) zs back x now in
    (((λ e. apart (sym e)), others), (now', rest))

-- The ids ascend, and the rows that workers have are processing, and different ones.
pub record IsTable (s : Workers) : Type 0 where
  pub ascending : IsAscending 0 s.0.next_id s.0.rows
  pub in_work : All (λ x. status_of x.id s.0.rows ≡ some processing) s.1
  pub apart : IsApart s.1

-- What a step comes to.
abbrev Refines : VerifyQueue → Workers → Type 0
Refines q t = IsTable t × ((id : ℕ) → Advance (status_of id q.rows) (status_of id t.0.rows))

module _ (q : VerifyQueue) (busy : List QueuedVerification) (h : IsTable (q, busy)) where
  submit-Refines :
      (works : Bool) (now : ℕ) (share : ShareToVerify) → Refines q (submit works now share q, busy)
  unfolding submit
  submit-Refines false now share = (h, λ id. stays (status_of id q.rows))
  submit-Refines true now share = (
    record {
      ascending = IsAscending-append 0 q.next_id q.rows _ refl h.ascending;
      in_work = All-map _ _ busy (λ x e. status_of-append x.id processing q.rows _ e) h.in_work;
      apart = h.apart;
    },
    λ id. Advance-append id q.rows _ refl,
  )

  cleanup-Refines : (now : ℕ) → Refines q (cleanup now q, busy)
  unfolding cleanup
  cleanup-Refines now = (
    record {
      ascending = IsAscending-cleanup_rows 0 q.next_id (now - nanos_per_hour) q.rows h.ascending;
      in_work =
          All-map _ _ busy
            (λ x e. status_of-cleanup_rows (now - nanos_per_hour) x.id processing q.rows refl e)
            h.in_work;
      apart = h.apart;
    },
    λ id. Advance-cleanup_rows (now - nanos_per_hour) id 0 q.next_id q.rows h.ascending,
  )

is_pending_eq : (s : Status) → is_pending s ≡ true → s ≡ pending
is_pending_eq pending h = refl
is_pending_eq s h = cc

pending_apart :
    (x y : QueuedVerification) (rows : List QueuedVerification)
    → status_of x.id rows ≡ some pending
    → status_of y.id rows ≡ some processing
    → x.id ≢ y.id
pending_apart x y rows h k e =
    let bad : ◌≡◌ {A = Option Status} (some pending) (some processing) =
      sym h ∙ (ap (λ n. status_of n rows) e ∙ k) in
    cc

-- A change of one row, from a status that may go to the new one.
Advance-update_row :
    (id id' : ℕ) (st s : Status) (f : QueuedVerification → QueuedVerification)
    (rows : List QueuedVerification)
    → ((x : QueuedVerification) → ((f x).id ≡ x.id) × ((f x).status ≡ st))
    → status_of id' rows ≡ some s
    → Advance (some s) (some st)
    → Advance (status_of id rows) (status_of id (update_row f id' rows))
Advance-update_row id id' st s f rows same h may = elim (Bool-cases (id' == id)) [
  | inl e ↦
      subst (λ n. Advance (status_of n rows) (status_of n (update_row f id' rows)))
        ((==_iff id' id).0 e) (rw (h, status_of-update_row id' st s f rows same h) may)
  | inr e ↦
      let apart : id' ≢ id = ground (arith, e) in
      rw (status_of-other id id' f rows (λ x. (same x).0) apart) (stays (status_of id rows))
]

taken-Refines :
    (now : ℕ) (q : VerifyQueue) (busy : List QueuedVerification) (x : QueuedVerification)
    → IsTable (q, busy)
    → status_of x.id q.rows ≡ some pending
    → Refines q (taken now x.id q, x ∷ busy)
unfolding taken
taken-Refines now q busy x h at_x = (
  record {
    ascending =
        IsAscending-update_row 0 q.next_id x.id (start_row now) q.rows (λ y. refl) h.ascending;
    in_work = (
      status_of-update_row x.id processing pending (start_row now) q.rows (λ y. (refl, refl)) at_x,
      All-map _ _ busy
          (λ y e.
            status_of-other y.id x.id (start_row now) q.rows (λ z. refl)
              (pending_apart x y q.rows at_x e)
            ∙ e)
          h.in_work,
    );
    apart =
        (All-map _ _ busy (λ y e k. pending_apart x y q.rows at_x e (sym k)) h.in_work, h.apart);
  },
  λ id.
      Advance-update_row id x.id processing pending (start_row now) q.rows (λ y. (refl, refl)) at_x
        started,
)

Judged-Refines :
    (q q' : VerifyQueue) (front back : List QueuedVerification) (x : QueuedVerification)
    → IsTable (q, front ++ (x ∷ back))
    → Judged x.id q q'
    → Refines q (q', front ++ back)
unfolding Judged
Judged-Refines q q' front back x h (n, inl e) =
    let (at_x, others) =
      All-middle (λ y. status_of y.id q.rows ≡ some processing) front back x h.in_work in
    let (away, apart) = IsApart-middle front back x h.apart in
    (
      record {
        ascending = rw (e, n) h.ascending;
        in_work =
            subst (λ rows. All (λ y. status_of y.id rows ≡ some processing) (front ++ back)) (sym e)
              others;
        apart = apart;
      },
      λ id. rw e (stays (status_of id q.rows)),
    )
Judged-Refines q q' front back x h (n, inr (status, (is, (now, e)))) =
    let (at_x, others) =
      All-middle (λ y. status_of y.id q.rows ≡ some processing) front back x h.in_work in
    let (away, apart) = IsApart-middle front back x h.apart in
    let rows' = update_row (finish_row status now) x.id q.rows in
    let work' : All (λ y. status_of y.id rows' ≡ some processing) (front ++ back) =
      All-zip _ _ _ (front ++ back)
        (λ y other e'.
          status_of-other y.id x.id (finish_row status now) q.rows (λ z. refl) (λ k. other (sym k))
          ∙ e')
        away others in
    (
      record {
        ascending =
            rw (e, n)
              (IsAscending-update_row 0 q.next_id x.id (finish_row status now) q.rows (λ y. refl)
                h.ascending);
        in_work =
            subst (λ rows. All (λ y. status_of y.id rows ≡ some processing) (front ++ back)) (sym e)
              work';
        apart = apart;
      },
      λ id. rw e (
          Advance-update_row id x.id status processing (finish_row status now) q.rows
            (λ y. (refl, refl)) at_x (judged status is)),
    )

module _ (calc_pow : CalcPowParams → Option Bytes) where
  Step-Refines : (s t : Workers) → Step calc_pow s t → IsTable s → Refines s.0 t
  Step-Refines s t (submits works now share q busy) h = submit-Refines q busy h works now share
  Step-Refines s t (takes now q busy x q' e) h =
      let (f, g) = take_next-some now q x q' e in
      let (m, is) = next_pending-Among q.rows x f in
      let at_x : status_of x.id q.rows ≡ some pending =
        status_of-Among 0 q.next_id x q.rows h.ascending m ∙ ap some (is_pending_eq x.status is) in
      subst (λ z. Refines q (z, x ∷ busy)) g (taken-Refines now q busy x h at_x)
  Step-Refines s t (finishes stored begun now q front back x) h =
      Judged-Refines q t.0 front back x h (Judged-finish calc_pow stored begun now x q)
  Step-Refines s t (cleans now q busy) h = cleanup-Refines q busy h now
  Step-Refines s t (restarts q busy) h = (
    record { ascending = h.ascending; in_work = tt; apart = tt },
    λ id. stays (status_of id q.rows),
  )

  Steps-IsTable : (s t : Workers) → Steps calc_pow s t → IsTable s → IsTable t
  Steps-IsTable s t (done u) h = h
  Steps-IsTable s t (more u v w one rest) h = Steps-IsTable v w rest (Step-Refines u v one h).0

  -- From an empty table on, every step of the workers, in every interleaving and with restarts, takes
  -- each id by an allowed step only: it enters as pending, goes from pending to processing and from
  -- there to verified or failed, and is dropped when it is one of these.
  pub Steps-Advance :
      (start : VerifyQueue) (s t : Workers) (id : ℕ)
      → start.rows ≡ []
      → Steps calc_pow (start, []) s
      → Step calc_pow s t
      → Advance (status_of id s.0.rows) (status_of id t.0.rows)
  Steps-Advance start s t id empty run one =
      let first : IsTable (start, []) = record {
        ascending = rw empty (omega arith);
        in_work = tt;
        apart = tt;
      } in
      (Step-Refines s t one (Steps-IsTable (start, []) s run first)).1 id
