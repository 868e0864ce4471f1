-- ===== src/Miner/Verdict.antt =====
-- The mutexes, the jobs and the credit of a submit in cmd/slave/conn.go, from the verification on.
use go_pool.Base.{
  Holds, ℕ, ◌≤◌, ◌<◌, ◌∙◌, ◌≡◌, ◌⊎◌, inl, inr, refl, ap, true, false, some, ltb, leb, Bool-cases,
  Option-cases, arith,
}
use go_pool.Base.Bytes.{Bytes, bytes_eq, bytes_eq→eq}
use go_pool.Float.{Float}
use go_pool.Penalty.{record_share}
use go_pool.Miner.Queue.{submit}
use go_pool.Miner.Conns.{ConnJob}
use go_pool.Miner.Checks.{RequestJob}
use go_pool.Miner.State.{Slave, Draws, Times, unlock_info, SubmitConfig, Daemon}
use go_pool.Miner.Submit.{judge_share, wrong_share, verification, verify_share, pow_params}
use go_pool.Miner.Locks.{Leaves, accept_share-Leaves}

module _ (fl : Float) (cfg : SubmitConfig fl) (env : Daemon) where
  module _ {C : Type 0} where
    judge_share-Leaves :
        (draws : Draws) (times : Times) (ip addr worker_id : Bytes) (job : ConnJob) (block : Bytes)
        (diff : ℕ) (m : Slave fl.F)
        → m.info_locked ≡ false
        → m.conn_locked ≡ true
        → (job.diff ≤ diff → C)
        → Holds
            (Leaves env m.conn m.shares C)
            (judge_share fl cfg env draws times ip addr worker_id job block diff m)
    unfolding judge_share
    judge_share-Leaves draws times ip addr worker_id job block diff m free taken c =
        let out = record_share fl cfg.penalty times.now m.conn.id ip true m.box in
        elim (Bool-cases (ltb diff job.diff)) [
          | inl e ↦
              rw (e, judge_share)
                (record {
                  locks = (refl, free);
                  current = refl;
                  last = refl;
                  nicehash = refl;
                  credit = inl refl;
                })
          | inr e ↦ elim (Bool-cases out.0) [
            | inl f ↦
                rw (e, judge_share)
                  (rw f (
                    accept_share-Leaves fl cfg env m.shares draws times addr worker_id job block
                      diff (record m { box = out.1 }) free taken (c (ground arith))))
            | inr f ↦
                rw (e, judge_share)
                  (rw f (record {
                    locks = (taken, refl);
                    current = refl;
                    last = refl;
                    nicehash = refl;
                    credit = inl refl;
                  }))
          ]
        ]

    wrong_share-Leaves :
        (times : Times) (ip : Bytes) (m : Slave fl.F)
        → m.conn_locked ≡ true
        → Leaves env m.conn m.shares C (wrong_share fl cfg env times ip m)
    unfolding wrong_share
    wrong_share-Leaves times ip m taken =
        elim (Bool-cases (record_share fl cfg.penalty times.now m.conn.id ip false m.box).0) [
          | inl f ↦
              rw (f, wrong_share)
                (record {
                  locks = (refl, refl);
                  current = refl;
                  last = refl;
                  nicehash = refl;
                  credit = inl refl;
                })
          | inr f ↦
              rw (f, wrong_share)
                (record {
                  locks = (taken, refl);
                  current = refl;
                  last = refl;
                  nicehash = refl;
                  credit = inl refl;
                })
        ]

    pub verify_share-Leaves :
        (draws : Draws) (times : Times) (ip addr worker_id : Bytes) (req : RequestJob)
        (job : ConnJob) (block hashing : Bytes) (diff : ℕ) (m : Slave fl.F)
        → m.conn_locked ≡ true
        → (job.diff ≤ diff
            → (diff < m.info.difficulty)
              ⊎ (env.calc_pow (pow_params m.info hashing) ≡ some req.result)
            → C)
        → Holds
            (Leaves env m.conn m.shares C)
            (verify_share fl cfg env draws times ip addr worker_id req job block hashing diff m)
    unfolding verify_share
    verify_share-Leaves draws times ip addr worker_id req job block hashing diff m taken c =
        let share = verification fl cfg env addr worker_id req hashing diff m in
        elim (Bool-cases (leb m.info.difficulty diff)) [
          | inr e ↦
              rw (e, verify_share)
                (judge_share-Leaves draws times ip addr worker_id job block diff
                  (unlock_info
                    (record m { queue = submit env.queue_works times.now share m.queue }))
                  refl taken (λ h. c h (inl (ground arith))))
          | inl e ↦ elim (Option-cases (env.calc_pow share.params)) [
            | inl f ↦
                rw (e, verify_share)
                  (rw f (record {
                    locks = (refl, refl);
                    current = refl;
                    last = refl;
                    nicehash = refl;
                    credit = inl refl;
                  }))
            | inr (pow, f) ↦ elim (Bool-cases (bytes_eq pow req.result)) [
              | inl g ↦
                  rw (e, verify_share)
                    (rw f (
                      rw g (
                        judge_share-Leaves draws times ip addr worker_id job block diff
                          (unlock_info m) refl taken
                          (λ h. c h (inr (f ∙ ap some (bytes_eq→eq pow req.result g)))))))
              | inr g ↦ rw (e, verify_share) (rw f (rw g (wrong_share-Leaves times ip m taken)))
            ]
          ]
        ]
