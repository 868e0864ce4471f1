-- ===== src/Miner/Locks.antt =====
-- The mutexes, the jobs and the credit of a submit in cmd/slave/conn.go, over all its paths.
use go_pool.Base.{
  Holds, Holds-bind, ℕ, ◌++◌, ◌≡◌, ◌⊎◌, inl, inr, refl, Bool, Outcome, true, false, not, ◌&&◌,
  if◌then◌else◌, [], ◌∷◌, Option, none, some, ok, leb, ◌==◌, length, Bool-cases,
}
use go_pool.Base.Bytes.{Bytes}
use go_pool.Base.Assoc.{Assoc}
use go_pool.Float.{Float}
use go_pool.Master.Packets.{hex_encode}
use go_pool.Slave.{ShareCache, block_packet, share_found_packet}
use go_pool.Miner.Text.{hex_decode}
use go_pool.Miner.Conns.{ConnJob, Connection}
use go_pool.Miner.State.{
  Flow, next, stopped, waits, Slave, Draws, Times, unlock_info, send_share, SubmitConfig, Daemon,
}
use go_pool.Miner.Submit.{
  update_diff, finished, report_block, decoded, on_answer, on_block, is_p2pool_share, accept_share,
}

module _ {A : Type 0} (P : A → Type 0) where
  Holds-if :
      (b : Bool) (x y : Outcome A)
      → (b ≡ true → Holds P x)
      → (b ≡ false → Holds P y)
      → Holds P (if b then x else y)
  Holds-if true x y f g = f refl
  Holds-if false x y f g = g refl

module _ {A S : Type 0} (P : A → Type 0) where
  Holds-answer :
      (asked answers : Bool) (silent : Outcome A) (next_ : S → Outcome A) (new old : S)
      → (answers ≡ false → Holds P silent)
      → Holds P (next_ new)
      → Holds P (next_ old)
      → Holds P (elim (if asked then (if answers then some new else none) else some old) [
        | none ↦ silent
        | some state ↦ next_ state
      ])
  Holds-answer true true silent next_ new old f g h = g
  Holds-answer true false silent next_ new old f g h = f refl
  Holds-answer false answers silent next_ new old f g h = h

module _ {F : Type 0} where
  -- Where the loop goes on, both mutexes are free; where it ends, the connection was kicked with its
  -- mutex taken. It waits for the P2Pool's answer with the connection's mutex, or for room for the
  -- signal of a block with both.
  abbrev pub LocksOf : Daemon → Flow → Slave F → Type 0
  LocksOf env next m = (m.conn_locked ≡ false) × (m.info_locked ≡ false)
  LocksOf env stopped m = (m.conn_locked ≡ true) × (m.is_kicked ≡ true)
  LocksOf env waits m =
      (m.conn_locked ≡ true)
      × (((env.p2pool_replies ≡ false) × (m.info_locked ≡ false))
          ⊎ ((env.signal_taken ≡ false) × (m.info_locked ≡ true)))

  -- What a handler leaves of a state: the mutexes, the jobs, and the shares, unless `C` holds.
  pub record Leaves (env : Daemon) (v : Connection F) (shares : Assoc Bytes ShareCache) (C : Type 0)
      (out : Flow × Slave F) : Type 0 where
    pub locks : LocksOf env out.0 out.1
    pub current : out.1.conn.current_job ≡ v.current_job
    pub last : out.1.conn.last_job ≡ v.last_job
    pub nicehash : out.1.conn.nicehash ≡ v.nicehash
    pub credit : (out.1.shares ≡ shares) ⊎ C

module _ (fl : Float) (cfg : SubmitConfig fl) (env : Daemon) where
  module _ {C : Type 0} (shares : Assoc Bytes ShareCache) where
    finished-Leaves :
        (times : Times) (job : ConnJob) (m : Slave fl.F)
        → m.info_locked ≡ false
        → C
        → Leaves env m.conn shares C (finished fl cfg env times job m)
    unfolding update_diff
    finished-Leaves times job m free c = record {
      locks = (refl, free);
      current = refl;
      last = refl;
      nicehash = refl;
      credit = inr c;
    }

    report_block-Leaves :
        (times : Times) (job : ConnJob) (o : Option Bytes) (m : Slave fl.F)
        → C
        → Holds (Leaves env m.conn shares C) (report_block fl cfg env times job o m)
    report_block-Leaves times job none m c = record {
      locks = (refl, refl);
      current = refl;
      last = refl;
      nicehash = refl;
      credit = inr c;
    }
    report_block-Leaves times job (some hash) m c =
        Holds-bind (Leaves env m.conn shares C)
          (block_packet m.info.future_height m.info.block_reward hash)
          (λ packet. ok (
            finished fl cfg env times job
              (unlock_info (record m { packets = m.packets ++ (packet ∷ []) }))))
          (λ packet.
            finished-Leaves times job
              (unlock_info (record m { packets = m.packets ++ (packet ∷ []) })) refl c)

    on_answer-Leaves :
        (times : Times) (job : ConnJob) (o : Option Bytes) (m : Slave fl.F)
        → C
        → Holds (Leaves env m.conn shares C) (on_answer fl cfg env times job o m)
    unfolding update_diff
    on_answer-Leaves times job none m c = record {
      locks = (refl, refl);
      current = refl;
      last = refl;
      nicehash = refl;
      credit = inr c;
    }
    on_answer-Leaves times job (some block_id) m c = elim (Bool-cases (length block_id == 64)) [
      | inl e ↦ rw e (report_block-Leaves times job (hex_decode block_id) m c)
      | inr e ↦ rw e (
          report_block-Leaves times job (decoded fl cfg env (env.block_hash m.info.future_height)) m
            c)
    ]

    on_block-Leaves :
        (times : Times) (job : ConnJob) (o : Option Bytes) (m : Slave fl.F)
        → m.conn_locked ≡ true
        → m.info_locked ≡ true
        → C
        → Holds (Leaves env m.conn shares C) (on_block fl cfg env times job o m)
    on_block-Leaves times job o m taken info_taken c =
        Holds-if (Leaves env m.conn shares C) env.signal_taken (on_answer fl cfg env times job o m)
          (ok (waits, m)) (λ _. on_answer-Leaves times job o m c)
          (λ e. record {
            locks = (taken, inr (e, info_taken));
            current = refl;
            last = refl;
            nicehash = refl;
            credit = inr c;
          })

    -- From the P2Pool's share on.
    settled-Leaves :
        (times : Times) (job : ConnJob) (block : Bytes) (diff difficulty : ℕ) (sent : Slave fl.F)
        → sent.info_locked ≡ false
        → sent.conn_locked ≡ true
        → C
        → Holds (Leaves env sent.conn shares C) (
            if not cfg.use_p2pool && leb difficulty diff
            then on_block fl cfg env times job
                (env.submit_block (hex_encode block))
                (record sent { info_locked = true })
            else ok (finished fl cfg env times job sent))
    settled-Leaves times job block diff difficulty sent free taken c =
        elim (Bool-cases (not cfg.use_p2pool && leb difficulty diff)) [
          | inl e ↦ rw e (
              on_block-Leaves times job (env.submit_block (hex_encode block))
                (record sent { info_locked = true }) taken refl c)
          | inr e ↦ rw e (finished-Leaves times job sent free c)
        ]

    pub accept_share-Leaves :
        (draws : Draws) (times : Times) (addr worker_id : Bytes) (job : ConnJob) (block : Bytes)
        (diff : ℕ) (m : Slave fl.F)
        → m.info_locked ≡ false
        → m.conn_locked ≡ true
        → C
        → Holds
            (Leaves env m.conn shares C)
            (accept_share fl cfg env draws times addr worker_id job block diff m)
    unfolding accept_share send_share
    accept_share-Leaves draws times addr worker_id job block diff m free taken c =
        let credited : Slave fl.F = send_share cfg.fee_address draws addr worker_id job.diff m in
        let sent : Slave fl.F = record credited {
          packets = credited.packets ++ (share_found_packet m.info.height ∷ []);
        } in
        Holds-answer (Leaves env m.conn shares C) (is_p2pool_share fl cfg env diff credited)
          env.p2pool_replies (ok (waits, credited))
          (λ state.
            if not cfg.use_p2pool && leb m.info.difficulty diff
            then on_block fl cfg env times job (env.submit_block (hex_encode block))
                (record state { info_locked = true })
            else ok (finished fl cfg env times job state))
          sent credited
          (λ e. record {
            locks = (taken, inl (e, free));
            current = refl;
            last = refl;
            nicehash = refl;
            credit = inr c;
          })
          (settled-Leaves times job block diff m.info.difficulty sent free taken c)
          (settled-Leaves times job block diff m.info.difficulty credited free taken c)
