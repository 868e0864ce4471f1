-- ===== src/Miner/Login/Accepted.antt =====
-- Logins of the documented form, and one that ends the process, in cmd/slave/conn.go.
use go_pool.Base.{
  ℕ, ◌≤◌, ◌<◌, ◌≡◌, refl, sym, ◌∙◌, true, false, not, ◌&&◌, ◌||◌, [], ◌∷◌, ◌++◌, some, ok, ltb,
  if◌then◌else◌, length, arith, append_assoc,
}
use go_pool.Base.Bytes.{Bytes}
use go_pool.Address.{is_address_valid}
use go_pool.Miner.Text.{contains_byte, is_nil, parse_uint, starts_with}
use go_pool.Miner.Login.{
  worker_part, no_agent, xmrig, dot, plus, is_worker_pass, login_worker, extract_worker_id,
  LoginRequest, split_diff, LoginConfig, first_diff, Session, accepted, conn_address, login_session,
  handle_login,
}
use go_pool.Miner.Login.Parts.{
  contains_byte-append, contains_byte-middle, split_byte-part, split_byte-one, cut_last-at,
}

-- `address.worker+difficulty`
abbrev pub join_login : Bytes → Bytes → Bytes → Bytes
join_login addr worker digits = addr ++ (dot ∷ (worker ++ (plus ∷ digits)))

join_front :
    (addr worker digits : Bytes)
    → join_login addr worker digits ≡ (addr ++ (dot ∷ worker)) ++ (plus ∷ digits)
join_front addr worker digits = sym (append_assoc addr (dot ∷ worker) (plus ∷ digits))

split_diff-join :
    (addr worker digits : Bytes) (d : ℕ)
    → contains_byte plus digits ≡ false
    → parse_uint digits ≡ some d
    → split_diff (join_login addr worker digits) ≡ (addr ++ (dot ∷ worker), d)
unfolding split_diff
split_diff-join addr worker digits d no_plus e =
    rw (join_front addr worker digits)
      (rw (cut_last-at plus (addr ++ (dot ∷ worker)) digits no_plus, split_diff) (rw e refl))

worker_part-plus :
    (worker digits : Bytes)
    → contains_byte plus worker ≡ false
    → is_nil worker ≡ false
    → worker_part (worker ++ (plus ∷ digits)) ≡ some worker
worker_part-plus [] digits a b = cc
worker_part-plus (x ∷ xs) digits a b =
    rw (contains_byte-middle plus (x ∷ xs) digits, worker_part)
      (rw (split_byte-part plus (x ∷ xs) digits a) refl)

login_worker-join :
    (addr worker digits : Bytes)
    → contains_byte dot addr ≡ false
    → contains_byte dot worker ≡ false
    → contains_byte dot digits ≡ false
    → contains_byte plus worker ≡ false
    → is_nil worker ≡ false
    → login_worker (join_login addr worker digits) ≡ some worker
unfolding login_worker
login_worker-join addr worker digits a b c d e =
    let alone : contains_byte dot (worker ++ (plus ∷ digits)) ≡ false =
      contains_byte-append dot worker (plus ∷ digits) b c in
    rw (split_byte-part dot addr (worker ++ (plus ∷ digits)) a) (
      rw (split_byte-one dot (worker ++ (plus ∷ digits)) alone)
        (worker_part-plus worker digits d e))

first_diff_max :
    (min_diff d : ℕ) → 0 < d → first_diff min_diff d ≡ (if ltb d min_diff then min_diff else d)
unfolding first_diff
first_diff_max min_diff d h = ground arith

join_there : (xs ys : Bytes) → is_nil (xs ++ (dot ∷ ys)) ≡ false
join_there [] ys = refl
join_there (x ∷ xs) ys = refl

unfoldable pub or_x : Bytes → Bytes
or_x pass = if is_nil pass then b'x' ∷ [] else pass

pub is_worker_pass_default :
    (pass : Bytes) → is_worker_pass pass ≡ false → is_worker_pass (or_x pass) ≡ false
unfolding or_x
is_worker_pass_default [] h = refl
is_worker_pass_default (x ∷ xs) h = h

extract-login_worker :
    (login pass agent worker : Bytes)
    → is_worker_pass pass ≡ false
    → login_worker login ≡ some worker
    → extract_worker_id login pass agent ≡ ok worker
unfolding extract_worker_id
extract-login_worker login pass agent worker h e = rw h (rw (e, extract_worker_id) refl)

module _ (keccak : Bytes → Bytes) (cfg : LoginConfig) where
  conn_address-join :
      (addr worker : Bytes)
      → contains_byte dot addr ≡ false
      → contains_byte dot worker ≡ false
      → is_address_valid keccak cfg.addresses addr ≡ true
      → conn_address keccak cfg (addr ++ (dot ∷ worker)) ≡ addr
  unfolding conn_address
  conn_address-join addr worker a b valid =
      rw (split_byte-part dot addr worker a, split_byte-one dot worker b) (rw valid refl)

  -- The session of a login in three parts.
  session-join :
      (req : LoginRequest) (addr worker digits : Bytes) (d : ℕ)
      → req.login ≡ join_login addr worker digits
      → contains_byte dot addr ≡ false
      → contains_byte dot worker ≡ false
      → contains_byte dot digits ≡ false
      → contains_byte plus worker ≡ false
      → contains_byte plus digits ≡ false
      → is_nil worker ≡ false
      → parse_uint digits ≡ some d
      → is_address_valid keccak cfg.addresses addr ≡ true
      → 10 ≤ length addr
      → is_worker_pass req.pass ≡ false
      → (s : Session) × ((login_session keccak cfg req ≡ ok (accepted s))
          × ((s.address ≡ addr) × ((s.worker_id ≡ worker) × (s.diff ≡ first_diff cfg.min_diff d))))
  unfolding login_session or_x
  session-join req addr worker digits d e a b c f g h p v l w =
      let agent = if is_nil req.agent then no_agent else req.agent in
      let split : split_diff req.login ≡ (addr ++ (dot ∷ worker), d) =
        rw e (split_diff-join addr worker digits d g p) in
      let named : extract_worker_id req.login (or_x req.pass) agent ≡ ok worker =
        extract-login_worker req.login (or_x req.pass) agent worker
          (is_worker_pass_default req.pass w)
          (rw e (login_worker-join addr worker digits a b c f h)) in
      let long : ltb (length addr) 10 ≡ false = ground arith in
      (
        record {
          address = addr;
          worker_id = worker;
          diff = first_diff cfg.min_diff d;
          nicehash =
              ((ltb 5 (length agent) && starts_with xmrig agent) || req.nicehash_support)
              && not cfg.use_p2pool;
        },
        (
          rw (split, login_session)
              (rw (conn_address-join addr worker a b v) (rw (long, v) (rw named refl))),
          (refl, (refl, refl)),
        ),
      )

  -- A login `address.worker+difficulty`, with a valid address of at least 10 bytes, a worker, a positive
  -- difficulty, none of the marks within a part (a difficulty has digits only), no worker as the
  -- password, and no ban, is accepted: with this address and worker, and with this difficulty or the
  -- minimum, whichever is higher.
  pub handle_login-join_login :
      (req : LoginRequest) (addr worker digits : Bytes) (d : ℕ)
      → req.login ≡ join_login addr worker digits
      → contains_byte dot addr ≡ false
      → contains_byte dot worker ≡ false
      → contains_byte dot digits ≡ false
      → contains_byte plus worker ≡ false
      → contains_byte plus digits ≡ false
      → is_nil worker ≡ false
      → parse_uint digits ≡ some d
      → 0 < d
      → is_address_valid keccak cfg.addresses addr ≡ true
      → 10 ≤ length addr
      → is_worker_pass req.pass ≡ false
      → (s : Session) × ((handle_login keccak cfg false (some req) ≡ ok (accepted s))
          × ((s.address ≡ addr)
              × ((s.worker_id ≡ worker)
                  × (s.diff ≡ (if ltb d cfg.min_diff then cfg.min_diff else d)))))
  unfolding handle_login
  handle_login-join_login req addr worker digits d e a b c f g h p pos v l w =
      let (s, (run, (x, (y, z)))) = session-join req addr worker digits d e a b c f g h p v l w in
      let there : is_nil req.login ≡ false = rw e (join_there addr (worker ++ (plus ∷ digits))) in
      (s, (rw there run, (x, (y, z ∙ first_diff_max cfg.min_diff d pos))))
