-- ===== src/Miner/Credit.antt =====
-- What a submit of cmd/slave/conn.go ends in: who is credited for what, and which requests stop the
-- slave.
use go_pool.Base.{
  Holds-imp, Holds, ℕ, ◌≤◌, ◌<◌, ◌≡◌, ◌⊎◌, inl, inr, refl, ap, ◌∙◌, Bool, true, false, not, ◌&&◌,
  if◌then◌else◌, List, [], ◌∷◌, ◌++◌, none, some, Outcome, ok, panic, ltb, leb, arith,
}
use go_pool.Base.Bytes.{Bytes}
use go_pool.Float.{Float}
use go_pool.Slave.{share_found_packet}
use go_pool.Master.Packets.{hex_encode}
use go_pool.Penalty.{record_share}
use go_pool.Miner.Queue.{submit}
use go_pool.Miner.Conns.{ConnJob, Connection}
use go_pool.Miner.Checks.{
  RequestJob, Reply, accepted, Checked, rejected, passed, checks, select_job,
}
use go_pool.Miner.State.{
  Infos, Flow, next, waits, Slave, Draws, Times, unlock_info, send_share, SubmitConfig, Daemon,
}
use go_pool.Miner.Submit.{
  finished, on_block, is_p2pool_share, update_diff, pow_params, verification, verify_share,
  handle_submit, judge_share, accept_share,
}
use go_pool.Miner.Locks.{Leaves}
use go_pool.Miner.Verdict.{verify_share-Leaves}

Checked-cases :
    (o : Outcome Checked)
    → (o ≡ panic)
      ⊎ (((r : Reply) × (o ≡ ok (rejected r)))
          ⊎ ((job : ConnJob) × ((block : Bytes) × ((hashing : Bytes) × ((diff : ℕ) × (o
                      ≡ ok (passed job block hashing diff)))))))
Checked-cases panic = inl refl
Checked-cases (ok (rejected r)) = inr (inl (r, refl))
Checked-cases (ok (passed job block hashing diff)) =
    inr (inr (job, (block, (hashing, (diff, refl)))))

module _ {F : Type 0} where
  found_answered :
      (asked answers : Bool) (m : Slave F) (packets : List Bytes)
      → (asked ≡ false) ⊎ (answers ≡ true)
      → (sent : Slave F) × ((if asked
            then (if answers then some (record m { packets = packets }) else none)
            else some m)
          ≡ some sent)
        × (sent.shares ≡ m.shares)
        × (sent.replies ≡ m.replies)
  found_answered false answers m packets h = (m, refl, refl, refl)
  found_answered true true m packets h = (record m { packets = packets }, refl, refl, refl)
  found_answered true false m packets (inl h) = cc
  found_answered true false m packets (inr h) = cc

  -- The checks read the jobs of the connection and whether it is a nicehash one.
  checks_same :
      (use_p2pool : Bool) (req : RequestJob) (v w : Connection F)
      → w.current_job ≡ v.current_job
      → w.last_job ≡ v.last_job
      → w.nicehash ≡ v.nicehash
      → checks use_p2pool req w ≡ checks use_p2pool req v
  unfolding checks select_job
  checks_same use_p2pool req v w cur last nh = rw (cur, last, nh) refl

module _ (fl : Float) (cfg : SubmitConfig fl) (env : Daemon) where
  -- What a share is credited for: it passed the checks, its stated hash stands for the difficulty of
  -- its job at least, and the daemon confirmed the hash, or the network's difficulty is higher.
  pub record Earned (req : RequestJob) (v : Connection fl.F) (info : Infos) : Type 0 where
    pub job : ConnJob
    pub block : Bytes
    pub hashing : Bytes
    pub diff : ℕ
    pub checked : checks cfg.use_p2pool req v ≡ ok (passed job block hashing diff)
    pub enough : job.diff ≤ diff
    pub confirmed :
        (diff < info.difficulty) ⊎ (env.calc_pow (pow_params info hashing) ≡ some req.result)

  module _ (draws : Draws) (times : Times) (ip addr worker_id : Bytes) (req : RequestJob)
      (m : Slave fl.F) (conn_free : m.conn_locked ≡ false) (info_free : m.info_locked ≡ false) where
    handle_submit-Leaves :
        Holds
          (Leaves env m.conn m.shares (Earned req m.conn m.info))
          (handle_submit fl cfg env draws times ip addr worker_id req m)
    unfolding handle_submit
    handle_submit-Leaves = elim (Checked-cases (checks cfg.use_p2pool req m.conn)) [
      | inl e ↦ rw (conn_free, handle_submit) (rw e tt)
      | inr (inl (r, e)) ↦
          rw (conn_free, handle_submit)
            (rw e (record {
              locks = (refl, info_free);
              current = refl;
              last = refl;
              nicehash = refl;
              credit = inl refl;
            }))
      | inr (inr (job, (block, (hashing, (diff, e))))) ↦
          rw (conn_free, handle_submit)
            (rw e (
              rw info_free (
                verify_share-Leaves fl cfg env draws times ip addr worker_id req job block hashing
                  diff (record m { conn_locked = true; info_locked = true }) refl
                  (λ enough confirmed. record {
                    job = job;
                    block = block;
                    hashing = hashing;
                    diff = diff;
                    checked = e;
                    enough = enough;
                    confirmed = confirmed;
                  }))))
    ]

    -- A submit that finds the mutexes free changes the shares only if they are earned: the checks
    -- passed, the stated hash stands for the job's difficulty at least, and the network's difficulty is
    -- higher, or the daemon's hash is the stated one. A panic is not excluded.
    pub handle_submit-Earned :
        Holds
          (λ out. (out.1.shares ≡ m.shares) ⊎ Earned req m.conn m.info)
          (handle_submit fl cfg env draws times ip addr worker_id req m)
    handle_submit-Earned =
        Holds-imp (Leaves env m.conn m.shares (Earned req m.conn m.info))
          (λ out. (out.1.shares ≡ m.shares) ⊎ Earned req m.conn m.info)
          (handle_submit fl cfg env draws times ip addr worker_id req m) (λ out h. h.credit)
          handle_submit-Leaves

    -- A submit that finds the mutexes free changes nothing that the checks read: the same request gets
    -- the same verdict from them again, with the same difficulty, unless the submit panics.
    pub handle_submit-checks :
        Holds
          (λ out. checks cfg.use_p2pool req out.1.conn ≡ checks cfg.use_p2pool req m.conn)
          (handle_submit fl cfg env draws times ip addr worker_id req m)
    handle_submit-checks =
        Holds-imp (Leaves env m.conn m.shares (Earned req m.conn m.info))
          (λ out. checks cfg.use_p2pool req out.1.conn ≡ checks cfg.use_p2pool req m.conn)
          (handle_submit fl cfg env draws times ip addr worker_id req m)
          (λ out h. checks_same cfg.use_p2pool req m.conn out.1.conn h.current h.last h.nicehash)
          handle_submit-Leaves

  -- A submit with free mutexes whose checks pass comes to the verification with both taken.
  pub handle_submit-verify_share :
      (draws : Draws) (times : Times) (ip addr worker_id : Bytes) (req : RequestJob)
      (m : Slave fl.F) (job : ConnJob) (block hashing : Bytes) (diff : ℕ)
      → m.conn_locked ≡ false
      → m.info_locked ≡ false
      → checks cfg.use_p2pool req m.conn ≡ ok (passed job block hashing diff)
      → handle_submit fl cfg env draws times ip addr worker_id req m
        ≡ verify_share fl cfg env draws times ip addr worker_id req job block hashing diff
            (record m { conn_locked = true; info_locked = true })
  unfolding handle_submit
  handle_submit-verify_share draws times ip addr worker_id req m job block hashing diff cf if_ e =
      rw (cf, handle_submit) (rw e (rw if_ refl))

  verify_share-low :
      (draws : Draws) (times : Times) (ip addr worker_id : Bytes) (req : RequestJob) (job : ConnJob)
      (block hashing : Bytes) (diff : ℕ) (m : Slave fl.F)
      → diff < m.info.difficulty
      → verify_share fl cfg env draws times ip addr worker_id req job block hashing diff m
        ≡ judge_share fl cfg env draws times ip addr worker_id job block diff (
            unlock_info (record m {
              queue =
                  submit env.queue_works times.now
                    (verification fl cfg env addr worker_id req hashing diff m)
                    m.queue;
            }))
  unfolding verify_share
  verify_share-low draws times ip addr worker_id req job block hashing diff m low =
      let a : leb m.info.difficulty diff ≡ false = ground arith in rw (a, verify_share) refl

  -- A share for the P2Pool is answered by it.
  abbrev pub IsAnswered : ℕ → Slave fl.F → Type 0
  IsAnswered diff m = (is_p2pool_share fl cfg env diff m ≡ false) ⊎ (env.p2pool_replies ≡ true)

  judge_share-ok :
      (draws : Draws) (times : Times) (ip addr worker_id : Bytes) (job : ConnJob) (block : Bytes)
      (diff : ℕ) (m : Slave fl.F)
      → job.diff ≤ diff
      → diff < m.info.difficulty
      → (record_share fl cfg.penalty times.now m.conn.id ip true m.box).0 ≡ true
      → IsAnswered diff m
      → (sent : Slave fl.F) × (judge_share fl cfg env draws times ip addr worker_id job block diff m
          ≡ ok (finished fl cfg env times job sent))
        × (sent.shares ≡ (send_share cfg.fee_address draws addr worker_id job.diff m).shares)
        × (sent.replies ≡ m.replies)
  unfolding judge_share accept_share send_share
  judge_share-ok draws times ip addr worker_id job block diff m enough low pass answers =
      let b : ltb diff job.diff ≡ false = ground arith in
      let a : leb m.info.difficulty diff ≡ false = ground arith in
      let c : (not cfg.use_p2pool && leb m.info.difficulty diff) ≡ false = rw a (ground (arith)) in
      let m' : Slave fl.F = record m {
        box = (record_share fl cfg.penalty times.now m.conn.id ip true m.box).1;
      } in
      let credited : Slave fl.F = send_share cfg.fee_address draws addr worker_id job.diff m' in
      let (sent, e, shares, replies) =
        found_answered (is_p2pool_share fl cfg env diff credited) env.p2pool_replies credited
          (credited.packets ++ (share_found_packet m.info.height ∷ [])) answers in
      let settle : Bool → Slave fl.F → Outcome (Flow × Slave fl.F) = λ block_found state.
        if block_found
        then on_block fl cfg env times job (env.submit_block (hex_encode block))
            (record state { info_locked = true })
        else ok (finished fl cfg env times job state) in
      let run : accept_share fl cfg env draws times addr worker_id job block diff m'
          ≡ ok (finished fl cfg env times job sent) =
        ap
          (λ o. elim o as (λ _. Outcome (Flow × Slave fl.F)) [
            | none ↦ ok (waits, credited)
            | some state ↦ settle (not cfg.use_p2pool && leb m.info.difficulty diff) state
          ])
          e
        ∙ ap (λ t. settle t sent) c in
      (sent, rw (b, judge_share) (rw pass run), shares, replies)

  -- A share below the network's difficulty is credited and answered with `OK` whatever the daemon says
  -- of its hash: it needs free mutexes, checks that pass, a stated hash for the job's difficulty, a
  -- penalty box that lets it through, and, where it is a share for the P2Pool, an answer of the P2Pool.
  pub handle_submit_unverified :
      (draws : Draws) (times : Times) (ip addr worker_id : Bytes) (req : RequestJob)
      (m : Slave fl.F) (job : ConnJob) (block hashing : Bytes) (diff : ℕ)
      → m.conn_locked ≡ false
      → m.info_locked ≡ false
      → checks cfg.use_p2pool req m.conn ≡ ok (passed job block hashing diff)
      → job.diff ≤ diff
      → diff < m.info.difficulty
      → (record_share fl cfg.penalty times.now m.conn.id ip true m.box).0 ≡ true
      → IsAnswered diff m
      → (m' : Slave fl.F) × ((handle_submit fl cfg env draws times ip addr worker_id req m
            ≡ ok (next, m'))
          × ((m'.shares ≡ (send_share cfg.fee_address draws addr worker_id job.diff m).shares)
              × (m'.replies ≡ m.replies ++ (accepted ∷ []))))
  unfolding send_share update_diff
  handle_submit_unverified draws times ip addr worker_id req m job block hashing diff cf if_ e
        enough low pass answers =
      let m1 : Slave fl.F = record m { conn_locked = true; info_locked = true } in
      let m2 : Slave fl.F = unlock_info (record m1 {
        queue =
            submit env.queue_works times.now
              (verification fl cfg env addr worker_id req hashing diff m1) m1.queue;
      }) in
      let (sent, judged, shares, replies) =
        judge_share-ok draws times ip addr worker_id job block diff m2 enough low pass answers in
      let run =
        handle_submit-verify_share draws times ip addr worker_id req m job block hashing diff cf if_
          e
        ∙ (verify_share-low draws times ip addr worker_id req job block hashing diff m1 low
            ∙ judged) in
      (_, (run, (shares, ap (λ l. l ++ (accepted ∷ [])) replies)))
