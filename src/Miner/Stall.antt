-- ===== src/Miner/Stall.antt =====
-- The requests of cmd/slave/conn.go that stop a slave: a hash that panics, and a ban that keeps
-- `CurInfo` locked.
use go_pool.Base.{
  ℕ, ◌^◌, ◌%◌, ◌≤◌, ◌<◌, ◌≡◌, ◌≢◌, refl, ap, ◌∙◌, Bool, true, false, some, Outcome, ok, panic, bind,
  leb, arith,
}
use go_pool.Base.Bytes.{Bytes, bytes_eq}
use go_pool.Float.{Float}
use go_pool.Serializer.Encoding.{le_value}
use go_pool.Template.{hash_to_diff}
use go_pool.Template.Hash.{hash_to_diff_panics}
use go_pool.Penalty.{record_share}
use go_pool.Miner.Text.{hex_decode}
use go_pool.Miner.Conns.{ConnJob, Connection}
use go_pool.Miner.Checks.{
  RequestJob, passed, with_nonce, block_blob, checks, select_job, is_malformed,
}
use go_pool.Miner.State.{stopped, waits, Slave, Draws, Times, SubmitConfig, Daemon}
use go_pool.Miner.Submit.{pow_params, verify_share, wrong_share, handle_submit}
use go_pool.Miner.Credit.{handle_submit-verify_share}

bind_panic {ℓ κ} :
    {A : Type ℓ} {B : Type κ} (o : Outcome A) (f : A → Outcome B)
    → ((a : A) → f a ≡ panic)
    → bind o f ≡ panic
bind_panic (ok a) f h = h a
bind_panic panic f h = refl

module _ {F : Type 0} where
  -- The checks panic on a well-formed request for a job without a nicehash byte whose hash panics.
  checks_panic :
      (use_p2pool : Bool) (req : RequestJob) (v : Connection F) (job : ConnJob) (hash salt : Bytes)
      → is_malformed req ≡ false
      → select_job req v ≡ some job
      → v.nicehash ≡ false
      → hex_decode req.result ≡ some hash
      → hex_decode req.nonce ≡ some salt
      → hash_to_diff hash ≡ panic
      → checks use_p2pool req v ≡ panic
  unfolding checks
  checks_panic use_p2pool req v job hash salt formed found plain e f bad =
      let inner : (h b : Bytes)
          → bind (hash_to_diff hash) (λ diff. ok (passed job b h diff)) ≡ panic =
        λ h b. rw bad refl in
      let outer =
        bind_panic (with_nonce salt job.hashing_blob)
          (λ h.
            bind (block_blob use_p2pool salt job)
              (λ b. bind (hash_to_diff hash) (λ diff. ok (passed job b h diff))))
          (λ h.
            bind_panic (block_blob use_p2pool salt job)
              (λ b. bind (hash_to_diff hash) (λ diff. ok (passed job b h diff))) (inner h)) in
      rw (formed, checks) (rw (e, f, found) (rw plain outer))

module _ (fl : Float) (cfg : SubmitConfig fl) (env : Daemon) where
  -- A miner whose connection is free stops the whole slave by one well-formed submit for its job: a
  -- stated hash whose little-endian value is below 2^192 and no multiple of 2^64 panics, before
  -- anything is compared with the daemon. The miner is not a nicehash one.
  pub handle_submit_panics :
      (draws : Draws) (times : Times) (ip addr worker_id : Bytes) (req : RequestJob)
      (m : Slave fl.F) (job : ConnJob) (hash salt : Bytes)
      → m.conn_locked ≡ false
      → is_malformed req ≡ false
      → select_job req m.conn ≡ some job
      → m.conn.nicehash ≡ false
      → hex_decode req.result ≡ some hash
      → hex_decode req.nonce ≡ some salt
      → le_value hash % 2 ^ 64 ≢ 0
      → le_value hash < 2 ^ 192
      → handle_submit fl cfg env draws times ip addr worker_id req m ≡ panic
  unfolding handle_submit
  handle_submit_panics draws times ip addr worker_id req m job hash salt cf formed found plain e f g
        h =
      let bad : hash_to_diff hash ≡ panic = (hash_to_diff_panics hash).1 (g, h) in
      rw (cf, handle_submit)
        (rw (checks_panic cfg.use_p2pool req m.conn job hash salt formed found plain e f bad) refl)

  wrong_share_banned :
      (times : Times) (ip : Bytes) (m : Slave fl.F)
      → (record_share fl cfg.penalty times.now m.conn.id ip false m.box).0 ≡ false
      → m.info_locked ≡ true
      → (m' : Slave fl.F) × ((wrong_share fl cfg env times ip m ≡ (stopped, m'))
          × (m'.info_locked ≡ true))
  unfolding wrong_share
  wrong_share_banned times ip m no_more taken = (
    (wrong_share fl cfg env times ip m).1,
    (rw (no_more, wrong_share) refl, rw (no_more, wrong_share) taken),
  )

  -- Whoever submits, with free mutexes, a share that passes the checks and may be a block, whose hash
  -- the daemon does not confirm, and is banned for it, leaves `CurInfo` locked: from then on a submit of
  -- any other connection whose checks pass waits for ever.
  pub handle_submit_stalls :
      (draws : Draws) (times : Times) (ip addr worker_id : Bytes) (req : RequestJob)
      (m : Slave fl.F) (job : ConnJob) (block hashing : Bytes) (diff : ℕ) (pow : Bytes)
      (draws2 : Draws) (times2 : Times) (ip2 addr2 worker2 : Bytes) (req2 : RequestJob)
      (other : Connection fl.F) (job2 : ConnJob) (block2 hashing2 : Bytes) (diff2 : ℕ)
      → m.conn_locked ≡ false
      → m.info_locked ≡ false
      → checks cfg.use_p2pool req m.conn ≡ ok (passed job block hashing diff)
      → m.info.difficulty ≤ diff
      → env.calc_pow (pow_params m.info hashing) ≡ some pow
      → bytes_eq pow req.result ≡ false
      → (record_share fl cfg.penalty times.now m.conn.id ip false m.box).0 ≡ false
      → checks cfg.use_p2pool req2 other ≡ ok (passed job2 block2 hashing2 diff2)
      → (m' : Slave fl.F) × ((handle_submit fl cfg env draws times ip addr worker_id req m
            ≡ ok (stopped, m'))
          × (handle_submit fl cfg env draws2 times2 ip2 addr2 worker2 req2
                (record m' { conn = other; conn_locked = false })
              ≡ ok (waits, record m' { conn = other; conn_locked = true })))
  unfolding handle_submit verify_share
  handle_submit_stalls draws times ip addr worker_id req m job block hashing diff pow draws2 times2
        ip2 addr2 worker2 req2 other job2 block2 hashing2 diff2 cf if_ e high f wrong no_more e2 =
      let m1 : Slave fl.F = record m { conn_locked = true; info_locked = true } in
      let (m', (run, taken)) = wrong_share_banned times ip m1 no_more refl in
      let a : leb m.info.difficulty diff ≡ true = ground arith in
      let verdict : verify_share fl cfg env draws times ip addr worker_id req job block hashing diff
            m1
          ≡ ok (stopped, m') =
        rw (a, verify_share) (rw f (rw wrong (ap ok run))) in
      (
        m',
        (
          handle_submit-verify_share fl cfg env draws times ip addr worker_id req m job block
                hashing diff cf if_ e
              ∙ verdict,
          rw (e2, handle_submit) (rw taken refl),
        ),
      )
