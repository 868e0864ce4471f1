-- ===== src/Miner/Targets.antt =====
-- The difficulties that a connection gets with the jobs of a P2Pool, in cmd/slave/conn.go.
use go_pool.Base.{
  Holds, Holds-then, ℕ, ◌≤◌, ◌≡◌, ◌⊎◌, inl, inr, refl, Option, none, some, Outcome, ok, panic, bind,
  ltb, get_elem?, if◌then◌else◌, Bool-cases, Option-cases, arith,
}
use go_pool.Base.Bytes.{Bytes}
use go_pool.Float.{Float}
use go_pool.Miner.Text.{hex_decode}
use go_pool.Miner.Conns.{Connection}
use go_pool.Miner.Notify.{
  P2PoolJob, Notice, kicked, target_diff, set_blob, announce, set_id, turn_over, clamp_diff,
  next_p2pool_job,
}

Diff-cases :
    (o : Outcome (Option ℕ)) → (o ≡ panic) ⊎ ((o ≡ ok none) ⊎ ((d : ℕ) × (o ≡ ok (some d))))
Diff-cases panic = inl refl
Diff-cases (ok none) = inr (inl refl)
Diff-cases (ok (some d)) = inr (inr (d, refl))

capped : (job_diff diff : ℕ) → (if ltb job_diff diff then job_diff else diff) ≤ job_diff
capped job_diff diff = ground arith

module _ {F : Type 0} where
  set_blob-last_job :
      (blob : Bytes) (v : Connection F) → Holds (λ w. w.last_job ≡ v.last_job) (set_blob blob v)
  set_blob-last_job blob v = elim (Bool-cases v.nicehash) [
    | inl e ↦ elim (Option-cases (get_elem? blob 42)) [
      | inl f ↦ rw (e, set_blob) (rw f tt)
      | inr (b, f) ↦ rw (e, set_blob) (rw f refl)
    ]
    | inr e ↦ rw (e, set_blob) refl
  ]

  -- What a connection has with a P2Pool of difficulty `d`.
  pub record IsTargeted (d : ℕ) (v w : Connection F) : Type 0 where
    pub p2pool : w.p2pool_diff ≡ d
    pub at_most : w.current_job.diff ≤ d
    pub last : w.last_job ≡ v.current_job

  -- Kicked, or given the difficulty of the target.
  unfoldable pub IsRetargeted : Bytes → Connection F → Notice × Connection F → Type 0
  IsRetargeted target v out =
      (out.0 ≡ kicked) ⊎ ((d : ℕ) × ((target_diff target ≡ ok (some d)) × IsTargeted d v out.1))

  announce-IsRetargeted :
      (target : Bytes) (cur : P2PoolJob) (v w : Connection F)
      → w.last_job ≡ v.current_job
      → Holds
          (IsRetargeted target v)
          (bind (target_diff target) (λ diff. ok (announce cur (set_id cur.job_id w) diff)))
  unfolding IsRetargeted
  announce-IsRetargeted target cur v w last = elim (Diff-cases (target_diff target)) [
    | inl e ↦ rw e tt
    | inr (inl e) ↦ rw e (inl refl)
    | inr (inr (d, e)) ↦
        rw e (
          inr
            (d, (e, record { p2pool = refl; at_most = capped d w.current_job.diff; last = last })))
  ]

module _ (fl : Float) where
  -- A later job of a P2Pool panics, or kicks the connection, or it sets the P2Pool's difficulty, which is read from
  -- the target of the first job and not of this one, bounds the miner's difficulty by it, and keeps the
  -- job before.
  pub next_p2pool_job_diff :
      (min_diff : ℕ) (first cur : P2PoolJob) (v : Connection fl.F)
      → Holds (IsRetargeted first.target v) (next_p2pool_job fl min_diff first cur v)
  unfolding next_p2pool_job IsRetargeted
  next_p2pool_job_diff min_diff first cur v =
      let turned : Connection fl.F =
        turn_over fl (clamp_diff fl min_diff v.p2pool_diff v.p2pool_diff v.next_diff) v in
      elim (Option-cases (hex_decode cur.blob)) [
        | inl e ↦ rw (e, next_p2pool_job) (inl refl)
        | inr (blob, e) ↦
            rw (e, next_p2pool_job)
              (Holds-then (λ w. w.last_job ≡ v.current_job) (IsRetargeted first.target v)
                (set_blob blob turned)
                (λ w.
                  bind (target_diff first.target)
                    (λ diff. ok (announce cur (set_id cur.job_id w) diff)))
                (λ w last. announce-IsRetargeted first.target cur v w last)
                (set_blob-last_job blob turned))
      ]
