-- ===== src/Miner/Submit.antt =====
-- cmd/slave/conn.go: what `HandleConnection` does with a request behind the login. The mutexes of
-- the connection and of `CurInfo` are part of the state: a handler that needs a taken one waits.
use go_pool.Base.{
  ℕ, ◌-◌, ◌*◌, ◌/◌, Bool, true, false, not, ◌&&◌, List, [], ◌∷◌, ◌++◌, Option, none, some, Outcome,
  ok, bind, ltb, leb, ◌==◌, if◌then◌else◌, length,
}
use go_pool.Base.Bytes.{Bytes, bytes_eq}
use go_pool.Float.{Float}
use go_pool.Slave.{block_packet, share_found_packet}
use go_pool.Penalty.{record_share}
use go_pool.Master.Packets.{hex_encode}
use go_pool.Miner.Text.{hex_decode}
use go_pool.Miner.Conns.{ConnJob}
use go_pool.Miner.Queue.{CalcPowParams, ShareToVerify, submit}
use go_pool.Miner.Checks.{
  keepalived, submits, other_method, RequestJob, alive, server_error, banned, wrong_hash, low_diff,
  accepted, Checked, rejected, passed, checks,
}
use go_pool.Miner.State.{
  Infos, Flow, next, stopped, waits, Slave, Draws, Times, reply, unlock_conn, unlock_info,
  send_share, SubmitConfig, Daemon,
}

-- What the daemon hashes for a share.
abbrev pub pow_params : Infos → Bytes → CalcPowParams
pow_params info hashing = record {
  major_version = info.major_version;
  height = info.height;
  block_blob = hex_encode hashing;
  seed_hash = info.seed_hash;
}

module _ (fl : Float) where
  open fl use {F, of_nat, add, mul, div}

  -- The time since the last share, held between a quarter and four times the target, in milliseconds.
  unfoldable pub clamp_delta : ℕ → ℕ → ℕ
  clamp_delta target delta =
      let low = target * 1000 / 4 in
      let high = target * 1000 * 4 in
      if ltb delta low then low else if ltb high delta then high else delta

  abbrev pub retarget : ℕ → ℕ → ℕ → F → F
  retarget target diff delta next_diff =
      let est_hr = div (of_nat diff) (of_nat delta) in
      let wanted = mul (mul est_hr (of_nat 1000)) (of_nat target) in
      div (add wanted (mul (of_nat 6) next_diff)) (of_nat 7)

  module _ (cfg : SubmitConfig fl) (env : Daemon) where
    -- The new difficulty of the connection, and the end of a valid share.
    unfoldable pub update_diff : Times → ConnJob → Slave F → Slave F
    update_diff times job m =
        let delta = clamp_delta cfg.share_target_time (times.now_ms - m.conn.last_share) in
        record m {
          conn = record m.conn {
            next_diff = retarget cfg.share_target_time job.diff delta m.conn.next_diff;
            last_share = times.later_ms;
          };
        }

    abbrev pub finished : Times → ConnJob → Slave F → Flow × Slave F
    finished times job m = (next, reply accepted (unlock_conn (update_diff times job m)))

    -- `SendBlockFound` for the bytes of a hash, which panics unless they are 32.
    abbrev pub report_block : Times → ConnJob → Option Bytes → Slave F → Outcome (Flow × Slave F)
    report_block times job none m = ok (next, unlock_info (unlock_conn m))
    report_block times job (some hash) m =
        bind (block_packet m.info.future_height m.info.block_reward hash) (λ packet.
          ok (finished times job (unlock_info (record m { packets = m.packets ++ (packet ∷ []) }))))

    abbrev pub decoded : Option Bytes → Option Bytes
    decoded none = none
    decoded (some text) = hex_decode text

    -- A block that the daemon took; forks that name no id are asked for the hash by the height.
    abbrev pub on_answer : Times → ConnJob → Option Bytes → Slave F → Outcome (Flow × Slave F)
    on_answer times job none m = ok (finished times job (unlock_info m))
    on_answer times job (some block_id) m =
        if length block_id == 64
        then report_block times job (hex_decode block_id) m
        else report_block times job (decoded (env.block_hash m.info.future_height)) m

    -- With the answer of `SubmitBlock`, and both mutexes taken: the signal is sent first.
    abbrev pub on_block : Times → ConnJob → Option Bytes → Slave F → Outcome (Flow × Slave F)
    on_block times job answer m =
        let signalled : Outcome (Flow × Slave F) = on_answer times job answer m in
        if env.signal_taken then signalled else ok (waits, m)

    abbrev pub is_p2pool_share : ℕ → Slave F → Bool
    is_p2pool_share diff m = cfg.use_p2pool && ltb m.conn.p2pool_diff diff

    -- `SubmitShare` and `SendShareFound`; `none` where the P2Pool's answer does not come.
    abbrev pub found_p2pool_share : ℕ → Slave F → Option (Slave F)
    found_p2pool_share diff m =
        let packets : List Bytes = m.packets ++ (share_found_packet m.info.height ∷ []) in
        if is_p2pool_share diff m
        then (if env.p2pool_replies then some (record m { packets = packets }) else none)
        else some m

    -- From `Share is valid!` on.
    unfoldable pub accept_share :
        Draws → Times → Bytes → Bytes → ConnJob → Bytes → ℕ → Slave F → Outcome (Flow × Slave F)
    accept_share draws times addr worker_id job block diff m =
        let credited : Slave F = send_share cfg.fee_address draws addr worker_id job.diff m in
        elim (found_p2pool_share diff credited) [
          | none ↦ ok (waits, credited)
          | some sent ↦
              if not cfg.use_p2pool && leb m.info.difficulty diff
              then on_block times job (env.submit_block (hex_encode block))
                  (record sent { info_locked = true })
              else ok (finished times job sent)
        ]

    -- Behind the verification: the job's difficulty, and the penalty box. A refusal of the box ends
    -- the loop with the connection's mutex taken.
    unfoldable pub judge_share :
        Draws
        → Times
        → Bytes
        → Bytes
        → Bytes
        → ConnJob
        → Bytes
        → ℕ
        → Slave F
        → Outcome (Flow × Slave F)
    judge_share draws times ip addr worker_id job block diff m =
        let (allowed, box) = record_share fl cfg.penalty times.now m.conn.id ip true m.box in
        let m' : Slave F = record m { box = box } in
        if ltb diff job.diff
        then ok (next, unlock_conn (reply low_diff m))
        else if allowed
        then accept_share draws times addr worker_id job block diff m'
        else ok (stopped, record m' { is_kicked = true })

    -- A hash that the daemon does not confirm. A ban ends the loop with both mutexes taken.
    unfoldable pub wrong_share : Times → Bytes → Slave F → Flow × Slave F
    wrong_share times ip m =
        let (allowed, box) = record_share fl cfg.penalty times.now m.conn.id ip false m.box in
        let m' : Slave F = record m { box = box } in
        if allowed
        then (next, unlock_info (unlock_conn (reply wrong_hash m')))
        else (stopped, record (reply banned m') { is_kicked = true })

    abbrev pub verification : Bytes → Bytes → RequestJob → Bytes → ℕ → Slave F → ShareToVerify
    verification addr worker_id req hashing diff m = record {
      connection_id = m.conn.id;
      params = pow_params m.info hashing;
      expected_result = req.result;
      share_diff = diff;
      miner_addr = addr;
      worker_id = worker_id;
    }

    -- With `CurInfo` locked: a possible block is verified at once, any other share is queued.
    unfoldable pub verify_share :
        Draws
        → Times
        → Bytes
        → Bytes
        → Bytes
        → RequestJob
        → ConnJob
        → Bytes
        → Bytes
        → ℕ
        → Slave F
        → Outcome (Flow × Slave F)
    verify_share draws times ip addr worker_id req job block hashing diff m =
        let share : ShareToVerify = verification addr worker_id req hashing diff m in
        let judge : Slave F → Outcome (Flow × Slave F) =
          judge_share draws times ip addr worker_id job block diff in
        let at_once : Outcome (Flow × Slave F) = elim (env.calc_pow share.params) [
          | none ↦ ok (next, unlock_info (unlock_conn (reply server_error m)))
          | some pow ↦
              if bytes_eq pow req.result then judge (unlock_info m) else ok (wrong_share times ip m)
        ] in
        let queued : Outcome (Flow × Slave F) =
          judge
            (unlock_info (record m { queue = submit env.queue_works times.now share m.queue })) in
        if leb m.info.difficulty diff then at_once else queued

    abbrev pub on_checked :
        Draws
        → Times
        → Bytes
        → Bytes
        → Bytes
        → RequestJob
        → Slave F
        → Checked
        → Outcome (Flow × Slave F)
    on_checked draws times ip addr worker_id req m (rejected r) = ok (next, unlock_conn (reply r m))
    on_checked draws times ip addr worker_id req m (passed job block hashing diff) =
        let verdict : Outcome (Flow × Slave F) =
          verify_share draws times ip addr worker_id req job block hashing diff
            (record m { info_locked = true }) in
        if m.info_locked then ok (waits, m) else verdict

    -- A submit, from the lock of the connection on.
    unfoldable pub handle_submit :
        Draws → Times → Bytes → Bytes → Bytes → RequestJob → Slave F → Outcome (Flow × Slave F)
    handle_submit draws times ip addr worker_id req m =
        let locked : Slave F = record m { conn_locked = true } in
        let work : Outcome (Flow × Slave F) =
          bind (checks cfg.use_p2pool req m.conn)
            (on_checked draws times ip addr worker_id req locked) in
        if m.conn_locked then ok (waits, m) else work

    -- One round of the loop, for a request that was read.
    unfoldable pub handle_request :
        Draws → Times → Bytes → Bytes → Bytes → RequestJob → Slave F → Outcome (Flow × Slave F)
    handle_request draws times ip addr worker_id req m = elim req.method [
      | keepalived ↦ ok (next, reply alive m)
      | submits ↦ handle_submit draws times ip addr worker_id req m
      | other_method ↦ ok (next, m)
    ]
