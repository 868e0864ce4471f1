-- ===== src/Miner/Login.antt =====
-- cmd/slave/conn.go: what `HandleConnection` makes of a login request.
pub mod Parts
pub mod Accepted
pub mod Agent
use go_pool.Base.{
  ℕ, ◌+◌, ◌*◌, ◌%◌, ◌^◌, Bool, true, false, not, ◌&&◌, ◌||◌, List, [], ◌∷◌, ◌++◌, Option, none,
  some, Outcome, ok, panic, bind, ltb, leb, ◌==◌, if◌then◌else◌, length, take,
}
use go_pool.Base.Bytes.{Bytes, bytes_eq}
use go_pool.Address.{AddressConfig, is_address_valid}
use go_pool.Miner.Text.{
  contains_byte, split_byte, is_nil, cut_last, starts_with, after_first, before_first, first_field,
  parse_uint,
}

abbrev pub dot : ℕ
dot = b'.'

abbrev pub plus : ℕ
plus = b'+'

-- The marker of a rig in the agent, and the default worker.
abbrev pub rig_id : Bytes
rig_id = b'r' ∷ (b'i' ∷ (b'g' ∷ (b'-' ∷ (b'i' ∷ (b'd' ∷ (b'/' ∷ []))))))

abbrev pub default_worker : Bytes
default_worker = b'd' ∷ (b'e' ∷ (b'f' ∷ (b'a' ∷ (b'u' ∷ (b'l' ∷ (b't' ∷ []))))))

-- Whether the password is a worker id.
abbrev pub is_worker_pass : Bytes → Bool
is_worker_pass pass =
    not (is_nil pass) && (not (bytes_eq pass (b'x' ∷ [])) && not (bytes_eq pass (b'X' ∷ [])))

abbrev pub first_part : List Bytes → Bytes
first_part [] = []
first_part (p ∷ ps) = p

-- The worker of a part of the login behind a dot, where it has one.
abbrev pub worker_part : Bytes → Option Bytes
worker_part part =
    let name = first_part (split_byte plus part) in
    if is_nil part
    then none
    else if contains_byte plus part
    then (if is_nil name then none else some name)
    else some part

abbrev second_part : List Bytes → Option Bytes
second_part [] = none
second_part (p ∷ []) = none
second_part (p ∷ (q ∷ ps)) = worker_part q

-- The second method of `extractWorkerID`: `address.workerID+difficulty`.
unfoldable pub login_worker : Bytes → Option Bytes
login_worker login = second_part (split_byte dot login)

-- The third method: behind `rig-id/` in the agent. Where nothing but white space follows,
-- `strings.Fields(…)[0]` is out of range.
unfoldable pub rig_worker : Bytes → Outcome (Option Bytes)
rig_worker agent = elim (after_first rig_id agent) [
  | none ↦ ok none
  | some back ↦ elim (first_field (before_first rig_id back)) [
    | none ↦ panic
    | some rig ↦ ok (some rig)
  ]
]

abbrev or_default : Option Bytes → Bytes
or_default none = default_worker
or_default (some rig) = rig

abbrev rig_or_default : Bytes → Outcome Bytes
rig_or_default agent = bind (rig_worker agent) (λ rig. ok (or_default rig))

unfoldable pub extract_worker_id : Bytes → Bytes → Bytes → Outcome Bytes
extract_worker_id login pass agent =
    if is_worker_pass pass
    then ok pass
    else elim (login_worker login) [ none ↦ rig_or_default agent | some worker ↦ ok worker ]

pub record LoginRequest : Type 0 where
  pub login : Bytes
  pub pass : Bytes
  pub agent : Bytes
  pub nicehash_support : Bool

-- The login without its difficulty, and the difficulty, with 0 for one that cannot be parsed.
unfoldable pub split_diff : Bytes → Bytes × ℕ
split_diff login = elim (cut_last plus login) [
  | none ↦ (login, 0)
  | some (front, back) ↦ (front, elim (parse_uint back) [ none ↦ 0 | some diff ↦ diff ])
]

pub record LoginConfig : Type 0 where
  pub min_diff : ℕ
  pub use_p2pool : Bool
  pub addresses : AddressConfig

-- The difficulty of the first job; a job of difficulty 0 stands for none.
unfoldable pub first_diff : ℕ → ℕ → ℕ
first_diff min_diff requested =
    let twice = (min_diff * 2) % 2 ^ 64 in
    let wanted = if ltb requested min_diff then min_diff else requested in
    let diff = if ltb 0 requested then wanted else 0 in if diff == 0 then twice else diff

abbrev pub no_agent : Bytes
no_agent =
    b'N'
    ∷ (b'o'
        ∷ (b' '
            ∷ (b'a'
                ∷ (b'g'
                    ∷ (b'e'
                        ∷ (b'n'
                            ∷ (b't'
                                ∷ (b' '
                                    ∷ (b's'
                                        ∷ (b'p'
                                            ∷ (b'e'
                                                ∷ (b'c'
                                                    ∷ (b'i'
                                                        ∷ (b'f'
                                                            ∷ (b'i'
                                                            ∷ (b'e' ∷ (b'd' ∷ [])))))))))))))))))

abbrev pub xmrig : Bytes
xmrig = b'X' ∷ (b'M' ∷ (b'R' ∷ (b'i' ∷ (b'g' ∷ []))))

-- What an accepted login fixes for the connection.
pub record Session : Type 0 where
  pub address : Bytes
  pub worker_id : Bytes
  pub diff : ℕ
  pub nicehash : Bool

-- The connection is kicked, refused for its address, or goes on.
pub data LoginResult : Type 0 where
  kicked refused : LoginResult
  accepted : Session → LoginResult

module _ (keccak : Bytes → Bytes) (cfg : LoginConfig) where
  abbrev pub valid : Bytes → Bool
  valid = is_address_valid keccak cfg.addresses

  -- `address.workername`, or the whole login.
  unfoldable pub conn_address : Bytes → Bytes
  conn_address login =
      let parts = split_byte dot login in
      if leb 2 (length parts) && valid (first_part parts) then first_part parts else login

  unfoldable pub login_session : LoginRequest → Outcome LoginResult
  login_session req =
      let pass = if is_nil req.pass then b'x' ∷ [] else req.pass in
      let agent = if is_nil req.agent then no_agent else req.agent in
      let (login, requested) = split_diff req.login in
      let addr = conn_address login in
      let nicehash =
        ((ltb 5 (length agent) && starts_with xmrig agent) || req.nicehash_support)
        && not cfg.use_p2pool in
      if ltb (length addr) 10 || not (valid addr)
      then ok refused
      else bind (extract_worker_id req.login pass agent) (λ worker_id. ok (
          accepted (record {
            address = addr;
            worker_id = worker_id;
            diff = first_diff cfg.min_diff requested;
            nicehash = nicehash;
          })))

  -- `HandleConnection` up to the first job: `none` is a failed read of the request.
  unfoldable pub handle_login : Bool → Option LoginRequest → Outcome LoginResult
  handle_login is_banned none = ok kicked
  handle_login is_banned (some req) =
      let session = login_session req in
      if is_banned then ok kicked else if is_nil req.login then ok kicked else session
