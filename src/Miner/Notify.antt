-- ===== src/Miner/Notify.antt =====
-- The jobs that a connection gets: the first one and the later ones of a P2Pool (cmd/slave/conn.go),
-- and the ones from the daemon, at the login (conn.go) and at a new block (`OnNewBlock` of slave.go).
-- The notifications stand for what is sent; a failed send is left out,
-- and so is what a kicked connection still holds.
use go_pool.Base.{
  ℕ, ◌+◌, ◌-◌, ◌%◌, ◌^◌, Option, none, some, Outcome, ok, panic, bind, ltb, ◌==◌, if◌then◌else◌,
  length, get_elem?,
}
use go_pool.Base.Bytes.{Bytes}
use go_pool.Float.{Float}
use go_pool.Template.{diff_to_short_target, short_diff_to_diff, mid_diff_to_diff}
use go_pool.Master.Packets.{hex_encode}
use go_pool.Miner.Text.{hex_decode}
use go_pool.Miner.Conns.{Connection}
use go_pool.Miner.State.{Infos}
use go_pool.Miner.Jobs.{TemplateResult, Job, NicehashJob, Issued, get_job, get_nicehash_job}

-- `MultiClientJob`: a job of the P2Pool.
pub record P2PoolJob : Type 0 where
  pub blob : Bytes
  pub height : ℕ
  pub job_id : Bytes
  pub seed_hash : Bytes
  pub target : Bytes

-- The miner is sent a job, or its connection is kicked.
pub data Notice : Type 0 where
  sent : Job → Notice
  kicked : Notice

-- The difficulty of a target in hexadecimal.
unfoldable pub target_diff : Bytes → Outcome (Option ℕ)
target_diff target = elim (hex_decode target) [
  | none ↦ ok none
  | some bytes ↦
      bind (if length bytes == 4 then short_diff_to_diff bytes else mid_diff_to_diff bytes)
        (λ diff. ok (if diff == 0 then none else some diff))
]

module _ {F : Type 0} where
  abbrev p2pool_notice : P2PoolJob → Connection F → Job
  p2pool_notice job conn = record {
    blob = job.blob;
    height = job.height;
    job_id = job.job_id;
    seed_hash = job.seed_hash;
    target = hex_encode (diff_to_short_target conn.current_job.diff);
  }

  -- The connection with the blob of a job; a nicehash one takes its byte from there.
  abbrev pub set_blob : Bytes → Connection F → Outcome (Connection F)
  set_blob blob conn =
      let plain : Connection F = record conn {
        current_job = record conn.current_job { hashing_blob = blob };
      } in
      let byte : Outcome (Connection F) = elim (get_elem? blob 42) [
        | none ↦ panic
        | some b ↦
            ok (record plain { current_job = record plain.current_job { nicehash_byte = b } })
      ] in
      if conn.nicehash then byte else ok plain

  -- The difficulties: the connection's is at most the P2Pool's.
  abbrev pub set_p2pool_diff : ℕ → Connection F → Connection F
  set_p2pool_diff job_diff conn = record conn {
    p2pool_diff = job_diff;
    current_job = record conn.current_job {
      diff = if ltb job_diff conn.current_job.diff then job_diff else conn.current_job.diff;
    };
  }

  abbrev pub set_id : Bytes → Connection F → Connection F
  set_id job_id conn = record conn { current_job = record conn.current_job { job_id = job_id } }

  abbrev pub announce : P2PoolJob → Connection F → Option ℕ → Notice × Connection F
  announce job conn none = (kicked, conn)
  announce job conn (some job_diff) =
      let conn' : Connection F = set_id job.job_id (set_p2pool_diff job_diff conn) in
      (sent (p2pool_notice job conn'), conn')

  -- The first job of a P2Pool. Its blob has to hold a nonce.
  unfoldable pub first_p2pool_job :
      Option P2PoolJob → Connection F → Outcome (Notice × Connection F)
  first_p2pool_job none conn = ok (kicked, conn)
  first_p2pool_job (some job) conn = elim (hex_decode job.blob) [
    | none ↦ ok (kicked, conn)
    | some blob ↦
        let set_up : Outcome (Notice × Connection F) =
          bind (set_blob blob conn)
            (λ conn'. bind (target_diff job.target) (λ diff. ok (announce job conn' diff))) in
        if ltb (length blob) 43 then ok (kicked, conn) else set_up
  ]

module _ (fl : Float) where
  open fl use {F, of_nat, to_nat, lt, le}

  -- The miner's next difficulty, between two bounds, of which the lower one wins.
  unfoldable pub clamp_diff : ℕ → ℕ → ℕ → F → F
  clamp_diff min_diff limit cap next_diff =
      if lt next_diff (of_nat min_diff)
      then of_nat min_diff
      else if le (of_nat limit) next_diff
      then of_nat cap
      else next_diff

  -- The last job is kept, and the current one gets the new difficulty.
  abbrev pub turn_over : F → Connection F → Connection F
  turn_over next_diff conn = record conn {
    last_job = conn.current_job;
    next_diff = next_diff;
    current_job = record conn.current_job { diff = to_nat next_diff };
  }

  -- A later job of a P2Pool, `cur`. The target that is read is the first job's.
  unfoldable pub next_p2pool_job :
      ℕ → P2PoolJob → P2PoolJob → Connection F → Outcome (Notice × Connection F)
  next_p2pool_job min_diff first cur conn =
      let turned : Connection F =
        turn_over (clamp_diff min_diff conn.p2pool_diff conn.p2pool_diff conn.next_diff) conn in
      elim (hex_decode cur.blob) [
        | none ↦ ok (kicked, turned)
        | some blob ↦ bind (set_blob blob turned) (λ conn'.
            bind (target_diff first.target)
              (λ diff. ok (announce cur (set_id cur.job_id conn') diff)))
      ]

  -- What the daemon's jobs come from: an answer, a random job id, `CurInfo` and the nicehash job.
  pub record Source : Type 0 where
    pub answer : Option TemplateResult
    pub salt : Bytes
    pub info : Infos
    pub nicehash_job : NicehashJob

  abbrev pub install : Job → Bytes → Connection F → Notice × Connection F
  install job blob conn =
      let with_blob : Connection F = record conn {
        current_job = record conn.current_job { blob = blob };
      } in
      elim (hex_decode job.blob) [
        | none ↦ (kicked, with_blob)
        | some hashing_blob ↦ (
          sent job,
          record with_blob {
            current_job = record with_blob.current_job {
              hashing_blob = hashing_blob;
              job_id = job.job_id;
            };
          },
        )
      ]

  abbrev install_nicehash : Source → Connection F → Issued → (Notice × Connection F) × Source
  install_nicehash src conn out =
      let src' : Source = record src { info = out.info; nicehash_job = out.nicehash } in
      elim out.job [
        | none ↦ ((kicked, conn), src')
        | some (job, (blob, byte)) ↦ (
          install job blob
              (record conn { current_job = record conn.current_job { nicehash_byte = byte } }),
          src',
        )
      ]

  abbrev install_plain :
      Source → Connection F → Option (Job × Bytes) × Infos → (Notice × Connection F) × Source
  install_plain src conn (none, info) = ((kicked, conn), record src { info = info })
  install_plain src conn (some (job, blob), info) =
      (install job blob conn, record src { info = info })

  -- A job of the connection's difficulty from the daemon: the first one, and the end of every other.
  unfoldable pub daemon_job : Source → Connection F → Outcome ((Notice × Connection F) × Source)
  daemon_job src conn =
      let diff = conn.current_job.diff in
      if conn.nicehash
      then bind (get_nicehash_job src.answer src.salt diff src.info src.nicehash_job)
          (λ out. ok (install_nicehash src conn out))
      else ok (install_plain src conn (get_job src.answer src.salt diff src.info))

  -- What `OnNewBlock` does to one connection, without P2Pool. A difficulty of 0 wraps around.
  unfoldable pub on_new_block :
      ℕ → Source → Connection F → Outcome ((Notice × Connection F) × Source)
  on_new_block min_diff src conn =
      let difficulty = src.info.difficulty in
      let below = (difficulty + (2 ^ 64 - 1)) % 2 ^ 64 in
      daemon_job src (turn_over (clamp_diff min_diff difficulty below conn.next_diff) conn)
