-- ===== src/Miner/Jobs.antt =====
-- cmd/slave/nicehash.go, and `GetJob` of conn.go: jobs from the daemon's block templates. Nicehash
-- miners share one template and get a byte of the nonce each. Answers of the daemon and the random
-- job ids are arguments; `none` is an error.
use go_pool.Base.{
  ℕ, ◌+◌, ◌%◌, ◌^◌, Bool, ◌||◌, Option, none, some, Outcome, ok, panic, bind, ltb, ◌==◌,
  if◌then◌else◌, length, set,
}
use go_pool.Base.Bytes.{Bytes}
use go_pool.Template.{diff_to_short_target}
use go_pool.Master.Packets.{hex_encode}
use go_pool.Miner.Text.{hex_decode}
use go_pool.Miner.State.{Infos}

-- The daemon's `GetBlockTemplateResult`; the blobs are hexadecimal.
pub record TemplateResult : Type 0 where
  pub template_blob : Bytes
  pub hashing_blob : Bytes
  pub height : ℕ
  pub seed_hash : Bytes
  pub difficulty : ℕ
  pub expected_reward : ℕ

-- `template.Job`, less the name of the algorithm.
pub record Job : Type 0 where
  pub blob : Bytes
  pub height : ℕ
  pub job_id : Bytes
  pub seed_hash : Bytes
  pub target : Bytes

pub record NicehashJob : Type 0 where
  pub hashing_blob : Bytes
  pub template_blob : Bytes
  pub height : ℕ
  pub seed_hash : Bytes
  pub last_nonce : ℕ

-- The writes to `CurInfo` for a new template.
abbrev pub with_template : TemplateResult → Infos → Infos
with_template tmpl info = record info {
  seed_hash = tmpl.seed_hash;
  difficulty = tmpl.difficulty;
  future_height = tmpl.height;
  block_reward = tmpl.expected_reward;
}

abbrev plain_job : TemplateResult → Bytes → ℕ → Infos → Job
plain_job tmpl salt job_diff info = record {
  blob = tmpl.hashing_blob;
  height = info.height;
  job_id = hex_encode salt;
  seed_hash = tmpl.seed_hash;
  target = hex_encode (diff_to_short_target job_diff);
}

-- `GetJob`: the job and the block template, or an error, and what `CurInfo` becomes.
unfoldable pub get_job : Option TemplateResult → Bytes → ℕ → Infos → Option (Job × Bytes) × Infos
get_job none salt job_diff info = (none, info)
get_job (some tmpl) salt job_diff info = elim (hex_decode tmpl.template_blob) [
  | none ↦ (none, info)
  | some blob ↦ (some (plain_job tmpl salt job_diff info, blob), with_template tmpl info)
]

-- The byte of the nonce that tells the nicehash miners apart; the blob must be long enough for it.
unfoldable pub with_nicehash_byte : ℕ → Bytes → Outcome Bytes
with_nicehash_byte b blob = if ltb (length blob) 43 then panic else ok (set blob 42 b)

-- The job and the state for a byte; the blob in the state is the array that the byte is written to.
abbrev pub nicehash_job : Bytes → ℕ → NicehashJob → Bytes → Job × NicehashJob
nicehash_job salt job_diff nh blob = (
  record {
    blob = hex_encode blob;
    height = nh.height;
    job_id = hex_encode salt;
    seed_hash = nh.seed_hash;
    target = hex_encode (diff_to_short_target job_diff);
  },
  record nh { hashing_blob = blob },
)

-- What a call leaves: the job with its template and byte, or an error, `CurInfo`, and the shared job.
pub record Issued : Type 0 where
  pub job : Option (Job × (Bytes × ℕ))
  pub info : Infos
  pub nicehash : NicehashJob

abbrev failed : Infos → NicehashJob → Issued
failed info nh = record { job = none; info = info; nicehash = nh }

abbrev issued : Bytes → ℕ → Infos → NicehashJob → Bytes → Issued
issued salt job_diff info nh blob =
    let (job, nh') = nicehash_job salt job_diff nh blob in
    record { job = some (job, (nh.template_blob, nh.last_nonce)); info = info; nicehash = nh' }

abbrev pub issue : Bytes → ℕ → Infos → NicehashJob → Outcome Issued
issue salt job_diff info nh =
    bind (with_nicehash_byte nh.last_nonce nh.hashing_blob)
      (λ blob. ok (issued salt job_diff info nh blob))

abbrev pub from_template : TemplateResult → Bytes → Bytes → NicehashJob
from_template tmpl blob template_blob = record {
  hashing_blob = blob;
  template_blob = template_blob;
  height = tmpl.height;
  seed_hash = tmpl.seed_hash;
  last_nonce = 1;
}

-- A new template. `CurInfo` is written before the hashing blob is decoded.
abbrev pub fresh_job : Option TemplateResult → Bytes → ℕ → Infos → NicehashJob → Outcome Issued
fresh_job none salt job_diff info nh = ok (failed info nh)
fresh_job (some tmpl) salt job_diff info nh = elim (hex_decode tmpl.template_blob) [
  | none ↦ ok (failed info nh)
  | some template_blob ↦ elim (hex_decode tmpl.hashing_blob) [
    | none ↦ ok (failed (with_template tmpl info) nh)
    | some blob ↦
        issue salt job_diff (with_template tmpl info) (from_template tmpl blob template_blob)
  ]
]

abbrev pub reuse_job : Bytes → ℕ → Infos → NicehashJob → Outcome Issued
reuse_job salt job_diff info nh =
    issue salt job_diff info (record nh { last_nonce = (nh.last_nonce + 1) % 2 ^ 8 })

abbrev pub is_used_up : NicehashJob → Bool
is_used_up nh = (nh.last_nonce == 255) || (nh.last_nonce == 0)

-- `GetNicehashJob`
unfoldable pub get_nicehash_job :
    Option TemplateResult → Bytes → ℕ → Infos → NicehashJob → Outcome Issued
get_nicehash_job answer salt job_diff info nh =
    if is_used_up nh
    then fresh_job answer salt job_diff info nh
    else reuse_job salt job_diff info nh

-- `ClearNicehashJob`
unfoldable pub clear_nicehash_job : NicehashJob → NicehashJob
clear_nicehash_job nh = record nh { last_nonce = 0 }
