-- ===== src/Miner/Nonces.antt =====
-- The bytes that cmd/slave/nicehash.go gives its miners, and the template they work on.
use go_pool.Base.{
  Holds, Returns, ℕ, zero, suc, ◌++◌, ◌+◌, ◌-◌, ◌%◌, ◌^◌, ◌≤◌, ◌<◌, ◌≡◌, refl, ap, ◌∙◌, true, false,
  List, [], ◌∷◌, Option, none, some, Outcome, ok, bind, ltb, length, set, get_elem?, Bool-cases,
  Option-cases, arith, ◌⊎◌, inl, inr,
}
use Prim.{absurd}
use go_pool.Base.Bytes.{Bytes}
use go_pool.Float.{Float}
use go_pool.Miner.Text.{hex_decode}
use go_pool.Miner.Conns.{Connection}
use go_pool.Miner.State.{Infos}
use go_pool.Miner.Jobs.{
  clear_nicehash_job, TemplateResult, Job, NicehashJob, Issued, with_nicehash_byte, fresh_job,
  reuse_job, is_used_up, get_nicehash_job, issue, nicehash_job, from_template, with_template,
}
use go_pool.Miner.Notify.{Source, install, clamp_diff, turn_over, daemon_job, on_new_block}

length-set : {A : Type 0} (xs : List A) (i : ℕ) (x : A) → length (set xs i x) ≡ length xs
length-set [] i x = refl
length-set (y ∷ ys) zero x = refl
length-set (y ∷ ys) (suc i) x = ap suc (length-set ys i x)

get_elem?-set :
    {A : Type 0} (xs : List A) (i : ℕ) (x : A) → i < length xs → get_elem? (set xs i x) i ≡ some x
get_elem?-set [] i x h = absurd (omega (arith, h))
get_elem?-set (y ∷ ys) zero x h = refl
get_elem?-set (y ∷ ys) (suc i) x h = get_elem?-set ys i x (omega (arith, h))

-- A call on a template that is not used up takes the next byte, and does not ask the daemon.
get_nicehash_job-reuse :
    (answer : Option TemplateResult) (salt : Bytes) (job_diff : ℕ) (info : Infos) (nh : NicehashJob)
    → 0 < nh.last_nonce
    → nh.last_nonce < 255
    → get_nicehash_job answer salt job_diff info nh ≡ reuse_job salt job_diff info nh
unfolding get_nicehash_job
get_nicehash_job-reuse answer salt job_diff info nh low high =
    let more : is_used_up nh ≡ false = ground arith in rw more refl

-- A job with its byte in the nonce, which the shared state holds too.
abbrev pub IsMarked : Issued → Type 0
IsMarked out =
    (out.job ≡ none)
    ⊎ ((1 ≤ out.nicehash.last_nonce)
        × ((out.nicehash.last_nonce ≤ 255)
            × ((get_elem? out.nicehash.hashing_blob 42 ≡ some out.nicehash.last_nonce)
                × ((job : Job) × (out.job
                      ≡ some (job, (out.nicehash.template_blob, out.nicehash.last_nonce)))))))

issue-IsMarked :
    (salt : Bytes) (job_diff : ℕ) (info : Infos) (nh : NicehashJob)
    → 1 ≤ nh.last_nonce
    → nh.last_nonce ≤ 255
    → Holds IsMarked (issue salt job_diff info nh)
unfolding with_nicehash_byte
issue-IsMarked salt job_diff info nh low high =
    elim (Bool-cases (ltb (length nh.hashing_blob) 43)) [
      | inl e ↦ rw e tt
      | inr e ↦ rw e (
          inr (
            low,
            (high, (get_elem?-set nh.hashing_blob 42 nh.last_nonce (ground arith), (_, refl))),
          ))
    ]

fresh-IsMarked :
    (answer : Option TemplateResult) (salt : Bytes) (job_diff : ℕ) (info : Infos) (nh : NicehashJob)
    → Holds IsMarked (fresh_job answer salt job_diff info nh)
fresh-IsMarked none salt job_diff info nh = inl refl
fresh-IsMarked (some tmpl) salt job_diff info nh =
    elim (Option-cases (hex_decode tmpl.template_blob)) [
      | inl e ↦ rw (e, fresh_job) (inl refl)
      | inr (template_blob, e) ↦ elim (Option-cases (hex_decode tmpl.hashing_blob)) [
        | inl f ↦ rw (e, fresh_job) (rw f (inl refl))
        | inr (blob, f) ↦
            rw (e, fresh_job)
              (rw f (
                issue-IsMarked salt job_diff (with_template tmpl info)
                  (from_template tmpl blob template_blob) (omega arith) (omega arith)))
      ]
    ]

next_byte :
    (nh : NicehashJob)
    → nh.last_nonce < 256
    → is_used_up nh ≡ false
    → (0 < nh.last_nonce) × (nh.last_nonce < 255)
next_byte nh h e = ground arith

-- Every nicehash job carries a byte from 1 to 255, in its blob as in the state, and the template of the
-- state; where no job is issued, there is an error. The state holds a byte before.
pub get_nicehash_job-IsMarked :
    (answer : Option TemplateResult) (salt : Bytes) (job_diff : ℕ) (info : Infos) (nh : NicehashJob)
    → nh.last_nonce < 256
    → Holds IsMarked (get_nicehash_job answer salt job_diff info nh)
unfolding get_nicehash_job
get_nicehash_job-IsMarked answer salt job_diff info nh byte = elim (Bool-cases (is_used_up nh)) [
  | inl e ↦ rw e (fresh-IsMarked answer salt job_diff info nh)
  | inr e ↦
      let (low, high) = next_byte nh byte e in
      rw e (
        issue-IsMarked salt job_diff info (record nh { last_nonce = (nh.last_nonce + 1) % 2 ^ 8 })
          (omega (arith, low, high)) (omega (arith, low, high)))
]

reuse_job-ok :
    (salt : Bytes) (job_diff : ℕ) (info : Infos) (nh : NicehashJob)
    → nh.last_nonce < 255
    → 43 ≤ length nh.hashing_blob
    → (job : Job) × (reuse_job salt job_diff info nh
        ≡ ok (record {
          job = some (job, (nh.template_blob, nh.last_nonce + 1));
          info = info;
          nicehash = record nh {
            last_nonce = nh.last_nonce + 1;
            hashing_blob = set nh.hashing_blob 42 (nh.last_nonce + 1);
          };
        }))
unfolding with_nicehash_byte
reuse_job-ok salt job_diff info nh high long =
    let next_one : (nh.last_nonce + 1) % 2 ^ 8 ≡ nh.last_nonce + 1 = omega (arith, high) in
    let e : ltb (length nh.hashing_blob) 43 ≡ false = ground arith in
    (
      (nicehash_job salt job_diff (record nh { last_nonce = nh.last_nonce + 1 })
          (set nh.hashing_blob 42 (nh.last_nonce + 1))).0,
      rw (next_one, reuse_job) (rw e refl),
    )

-- Behind `ClearNicehashJob` the next call asks the daemon again.
pub get_nicehash_job-clear_nicehash_job :
    (answer : Option TemplateResult) (salt : Bytes) (job_diff : ℕ) (info : Infos) (nh : NicehashJob)
    → get_nicehash_job answer salt job_diff info (clear_nicehash_job nh)
      ≡ fresh_job answer salt job_diff info (clear_nicehash_job nh)
unfolding get_nicehash_job clear_nicehash_job
get_nicehash_job-clear_nicehash_job answer salt job_diff info nh = refl

-- One request for a nicehash job: what the daemon would answer, a job id, and a difficulty.
abbrev pub Request : Type 0
Request = Option TemplateResult × (Bytes × ℕ)

abbrev byte_of : Issued → List ℕ
byte_of out = elim out.job [ none ↦ [] | some (job, (blob, byte)) ↦ byte ∷ [] ]

-- The bytes that a sequence of requests gets.
unfoldable pub issue_all : List Request → Infos → NicehashJob → Outcome (List ℕ)
issue_all [] info nh = ok []
issue_all ((answer, (salt, job_diff)) ∷ requests) info nh =
    bind (get_nicehash_job answer salt job_diff info nh)
      (λ out. bind (issue_all requests out.info out.nicehash) (λ bytes. ok (byte_of out ++ bytes)))

abbrev pub count_up : ℕ → List Request → List ℕ
count_up n [] = []
count_up n (request ∷ requests) = n ∷ count_up (n + 1) requests

-- While a template is in use, up to 254 further requests get the bytes that follow, each its own.
pub issue_all_distinct :
    (requests : List Request) (info : Infos) (nh : NicehashJob)
    → 0 < nh.last_nonce
    → nh.last_nonce + length requests ≤ 255
    → 43 ≤ length nh.hashing_blob
    → issue_all requests info nh ≡ ok (count_up (nh.last_nonce + 1) requests)
unfolding issue_all
issue_all_distinct [] info nh low high long = refl
issue_all_distinct ((answer, (salt, job_diff)) ∷ requests) info nh low high long =
    let (job, made) = reuse_job-ok salt job_diff info nh (omega (arith, high)) long in
    let asked = get_nicehash_job-reuse answer salt job_diff info nh low (omega (arith, high)) in
    let nh' : NicehashJob = record nh {
      last_nonce = nh.last_nonce + 1;
      hashing_blob = set nh.hashing_blob 42 (nh.last_nonce + 1);
    } in
    let rest =
      issue_all_distinct requests info nh' (omega (arith, low)) (omega (arith, high))
        (rw (length-set nh.hashing_blob 42 (nh.last_nonce + 1)) long) in
    rw (asked, issue_all) (rw made (rw rest refl))

module _ (fl : Float) where
  install-blob :
      (job : Job) (blob : Bytes) (conn : Connection fl.F)
      → (install fl job blob conn).1.current_job.blob ≡ blob
  install-blob job blob conn = elim (Option-cases (hex_decode job.blob)) [
    | inl e ↦ rw (e, install) refl
    | inr (hashing_blob, e) ↦ rw (e, install) refl
  ]

  -- At a new block a nicehash connection is given the old template: unless 255 jobs were made from it or
  -- it was cleared, the daemon's answer is not used, and `CurInfo` stays as it was.
  pub on_new_block_stale :
      (min_diff : ℕ) (src : Source fl) (conn : Connection fl.F)
      → conn.nicehash ≡ true
      → 0 < src.nicehash_job.last_nonce
      → src.nicehash_job.last_nonce < 255
      → 43 ≤ length src.nicehash_job.hashing_blob
      → Returns
          (λ out.
            (out.0.1.current_job.blob ≡ src.nicehash_job.template_blob) × (out.1.info ≡ src.info))
          (on_new_block fl min_diff src conn)
  unfolding on_new_block daemon_job
  on_new_block_stale min_diff src conn nh low high long =
      let diff_next =
        clamp_diff fl min_diff src.info.difficulty ((src.info.difficulty + (2 ^ 64 - 1)) % 2 ^ 64)
          conn.next_diff in
      let v : Connection fl.F = turn_over fl diff_next conn in
      let shared = src.nicehash_job in
      let (job, made) = reuse_job-ok src.salt v.current_job.diff src.info shared high long in
      let asked =
        get_nicehash_job-reuse src.answer src.salt v.current_job.diff src.info shared low high in
      let marked : Connection fl.F = record v {
        nicehash = true;
        current_job = record v.current_job { nicehash_byte = shared.last_nonce + 1 };
      } in
      rw nh (rw (asked ∙ made) (install-blob job shared.template_blob marked, refl))
