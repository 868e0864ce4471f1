-- ===== src/Miner/Login/Agent.antt =====
-- The third method of `extractWorkerID` in cmd/slave/conn.go on an agent whose rig has no name.
use go_pool.Base.{
  ℕ, ◌≤◌, ◌≡◌, refl, ap, true, false, [], ◌∷◌, none, some, panic, ltb, length, All, ◌==◌, arith,
}
use Prim.{absurd}
use go_pool.Base.Bytes.{Bytes}
use go_pool.Address.{is_address_valid}
use go_pool.Miner.Text.{
  contains_byte, is_nil, narrow_space, space_width, trim_spaces, first_field, after_first,
  before_first,
}
use go_pool.Miner.Login.{
  dot, plus, rig_id, is_worker_pass, login_worker, rig_worker, extract_worker_id, LoginRequest,
  split_diff, LoginConfig, conn_address, login_session, handle_login,
}
use go_pool.Miner.Login.Parts.{split_byte-one, cut_last-none}
use go_pool.Miner.Login.Accepted.{or_x, is_worker_pass_default}

-- Only spaces, tabs and line ends.
abbrev pub IsBlank : Bytes → Type 0
IsBlank = All (λ x. narrow_space x ≡ true)

space_width_narrow : (x : ℕ) (xs : Bytes) → narrow_space x ≡ true → space_width (x ∷ xs) ≡ 1
unfolding space_width
space_width_narrow x [] h = rw h refl
space_width_narrow x (y ∷ []) h = rw h refl
space_width_narrow x (y ∷ (z ∷ xs)) h = rw h refl

trim_spaces-IsBlank : (xs : Bytes) → IsBlank xs → trim_spaces 0 xs ≡ []
unfolding trim_spaces
trim_spaces-IsBlank [] h = refl
trim_spaces-IsBlank (x ∷ xs) (now, h) = rw (space_width_narrow x xs now) (trim_spaces-IsBlank xs h)

before_first-IsBlank : (xs : Bytes) → IsBlank xs → before_first rig_id xs ≡ xs
unfolding before_first
before_first-IsBlank [] h = refl
before_first-IsBlank (x ∷ xs) (now, h) =
    let other : (x == b'r') ≡ false = ground arith in
    rw other (ap (λ t. x ∷ t) (before_first-IsBlank xs h))

rig_worker-IsBlank :
    (agent back : Bytes)
    → after_first rig_id agent ≡ some back
    → IsBlank back
    → rig_worker agent ≡ panic
unfolding rig_worker first_field
rig_worker-IsBlank agent back e h =
    rw (e, rig_worker) (rw (before_first-IsBlank back h) (rw (trim_spaces-IsBlank back h) refl))

login_worker-none : (login : Bytes) → contains_byte dot login ≡ false → login_worker login ≡ none
unfolding login_worker
login_worker-none login h = rw (split_byte-one dot login h) refl

-- A worker id is wanted from the agent, which has nothing but blanks behind `rig-id/`.
pub extract_worker_id_panics :
    (login pass agent back : Bytes)
    → contains_byte dot login ≡ false
    → is_worker_pass pass ≡ false
    → after_first rig_id agent ≡ some back
    → IsBlank back
    → extract_worker_id login pass agent ≡ panic
unfolding extract_worker_id
extract_worker_id_panics login pass agent back a w e h = rw w (
    rw (login_worker-none login a, extract_worker_id) (rw (rig_worker-IsBlank agent back e h) refl))

agent_there : (agent back : Bytes) → after_first rig_id agent ≡ some back → is_nil agent ≡ false
unfolding after_first
agent_there [] back e = cc
agent_there (x ∷ xs) back e = refl

long_there : (xs : Bytes) → 10 ≤ length xs → is_nil xs ≡ false
long_there [] h = absurd (omega (arith, h))
long_there (x ∷ xs) h = refl

split_diff-plain :
    (login : Bytes) → contains_byte plus login ≡ false → split_diff login ≡ (login, 0)
unfolding split_diff
split_diff-plain login h = rw (cut_last-none plus login h, split_diff) refl

module _ (keccak : Bytes → Bytes) (cfg : LoginConfig) where
  conn_address-plain :
      (login : Bytes) → contains_byte dot login ≡ false → conn_address keccak cfg login ≡ login
  unfolding conn_address
  conn_address-plain login h = rw (split_byte-one dot login h) refl

  -- A login by a plain valid address, of at least 10 bytes, without a worker as the password, whose agent
  -- has nothing but blanks behind the first `rig-id/`, panics: it ends the slave for all its miners.
  pub handle_login_panics :
      (req : LoginRequest) (back : Bytes)
      → contains_byte dot req.login ≡ false
      → contains_byte plus req.login ≡ false
      → is_address_valid keccak cfg.addresses req.login ≡ true
      → 10 ≤ length req.login
      → is_worker_pass req.pass ≡ false
      → after_first rig_id req.agent ≡ some back
      → IsBlank back
      → handle_login keccak cfg false (some req) ≡ panic
  unfolding handle_login login_session or_x
  handle_login_panics req back a b v l w e h =
      let there : is_nil req.login ≡ false = long_there req.login l in
      let long : ltb (length req.login) 10 ≡ false = ground arith in
      let bad : extract_worker_id req.login (or_x req.pass) req.agent ≡ panic =
        extract_worker_id_panics req.login (or_x req.pass) req.agent back a
          (is_worker_pass_default req.pass w) e h in
      let split = split_diff-plain req.login b in
      let agent = agent_there req.agent back e in
      let whole = conn_address-plain req.login a in
      rw there (rw (split, login_session) (rw (whole, agent) (rw (long, v) (rw bad refl))))
