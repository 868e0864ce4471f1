-- ===== src/Miner/Checks.antt =====
-- cmd/slave/conn.go: the checks of a submitted share that need its connection only.
use go_pool.Base.{
  ℕ, Bool, true, false, not, ◌&&◌, ◌||◌, [], ◌∷◌, ◌++◌, Option, none, some, Outcome, ok, panic,
  bind, ltb, ◌==◌, if◌then◌else◌, length, take, drop,
}
use go_pool.Base.Bytes.{Bytes, bytes_eq}
use go_pool.Template.{hash_to_diff}
use go_pool.Miner.Text.{is_hex, hex_decode, is_nil}
use go_pool.Miner.Conns.{ConnJob, Connection}

pub data Method : Type 0 where
  keepalived submits other_method : Method

pub record RequestJob : Type 0 where
  pub method : Method
  pub job_id : Bytes
  pub nonce : Bytes
  pub result : Bytes

-- The answers to a request.
pub data Reply : Type 0 where
  alive malformed wrong_job wrong_nicehash server_error banned wrong_hash low_diff accepted : Reply

abbrev pub set_nonce : Bytes → Bytes → Bytes
set_nonce nonce blob = take 39 blob ++ (take 4 nonce ++ drop 43 blob)

-- The four writes to a copy of a blob, the last of which is out of range in a short one.
unfoldable pub with_nonce : Bytes → Bytes → Outcome Bytes
with_nonce nonce blob = if ltb (length blob) 43 then panic else ok (set_nonce nonce blob)

abbrev fourth : Bytes → ℕ
fourth (a ∷ (b ∷ (c ∷ (d ∷ rest)))) = d
fourth _ = 0

-- What the checks in front of the difficulty find: a reply that ends them, or the job, the block blob
-- and the hashing blob with the nonce, and the difficulty that the stated hash stands for.
pub data Checked : Type 0 where
  rejected : Reply → Checked
  passed : ConnJob → Bytes → Bytes → ℕ → Checked

abbrev pub is_malformed : RequestJob → Bool
is_malformed req =
    not (length req.nonce == 8)
    || (not (length req.result == 64) || (not (is_hex req.nonce) || not (is_hex req.result)))

-- With P2Pool the block blob stays all zeros, and is not read.
abbrev pub block_blob : Bool → Bytes → ConnJob → Outcome Bytes
block_blob true nonce job = ok []
block_blob false nonce job = with_nonce nonce job.blob

module _ {F : Type 0} where
  -- `theJob`, or nothing for a wrong job id.
  unfoldable pub select_job : RequestJob → Connection F → Option ConnJob
  select_job req conn =
      if bytes_eq req.job_id conn.last_job.job_id && not (is_nil req.job_id)
      then some conn.last_job
      else if bytes_eq req.job_id conn.current_job.job_id
      then some conn.current_job
      else none

  abbrev checks_on_job : Bool → Bytes → Bytes → Connection F → ConnJob → Outcome Checked
  checks_on_job use_p2pool nonce hash conn job =
      let measured : Outcome Checked = bind (with_nonce nonce job.hashing_blob) (λ hashing.
        bind (block_blob use_p2pool nonce job)
          (λ block. bind (hash_to_diff hash) (λ diff. ok (passed job block hashing diff)))) in
      if conn.nicehash && (not (job.nicehash_byte == 0) && not (fourth nonce == job.nicehash_byte))
      then ok (rejected wrong_nicehash)
      else measured

  abbrev checks_decoded :
      Bool
      → RequestJob
      → Connection F
      → Option Bytes
      → Option Bytes
      → Option ConnJob
      → Outcome Checked
  checks_decoded use_p2pool req conn hash salt none = ok (rejected wrong_job)
  checks_decoded use_p2pool req conn (some hash) (some salt) (some job) =
      checks_on_job use_p2pool salt hash conn job
  checks_decoded use_p2pool req conn hash salt (some job) = panic

  -- The checks of a submit that need neither the daemon nor `CurInfo`.
  unfoldable pub checks : Bool → RequestJob → Connection F → Outcome Checked
  checks use_p2pool req conn =
      let found : Outcome Checked =
        checks_decoded use_p2pool req conn (hex_decode req.result) (hex_decode req.nonce)
          (select_job req conn) in
      if is_malformed req then ok (rejected malformed) else found
