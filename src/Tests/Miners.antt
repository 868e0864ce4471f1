-- ===== src/Tests/Miners.antt =====
-- Logins and submits of a miner at concrete inputs.
use go_pool.Base.{◌≡◌, refl, false, [], ◌∷◌, some, ok, panic, arith}
use go_pool.Miner.Text.{parse_uint, digits_value, after_first}
use go_pool.Miner.Login.{rig_id, LoginRequest, LoginConfig, Session, accepted, handle_login}
use go_pool.Miner.Login.Accepted.{join_login, handle_login-join_login}
use go_pool.Miner.Login.Agent.{handle_login_panics}
use go_pool.Tests.Codec.{ones, no_hash, zero_prefix, ones_valid}

abbrev logins : LoginConfig
logins = record { min_diff = 100; use_p2pool = false; addresses = zero_prefix }

abbrev joined : LoginRequest
joined = record {
  login = join_login (ones 99) (b'r' ∷ (b'1' ∷ [])) (b'5' ∷ (b'0' ∷ (b'0' ∷ [])));
  pass = b'x' ∷ [];
  agent = [];
  nicehash_support = false;
}

five_hundred : parse_uint (b'5' ∷ (b'0' ∷ (b'0' ∷ []))) ≡ some 500
unfolding parse_uint digits_value
five_hundred = refl

handle_login-join_login_example :
    (s : Session) × ((handle_login no_hash logins false (some joined) ≡ ok (accepted s))
      × ((s.address ≡ ones 99) × ((s.worker_id ≡ b'r' ∷ (b'1' ∷ [])) × (s.diff ≡ 500))))
handle_login-join_login_example =
    handle_login-join_login no_hash logins joined (ones 99) (b'r' ∷ (b'1' ∷ []))
      (b'5' ∷ (b'0' ∷ (b'0' ∷ []))) 500 refl refl refl refl refl refl refl five_hundred
      (omega arith) ones_valid (omega arith) refl

abbrev plain : LoginRequest
plain = record { login = ones 99; pass = []; agent = rig_id; nicehash_support = false }

nothing_behind : after_first rig_id rig_id ≡ some []
unfolding after_first
nothing_behind = refl

handle_login_panics_example : handle_login no_hash logins false (some plain) ≡ panic
handle_login_panics_example =
    handle_login_panics no_hash logins plain [] refl refl ones_valid (omega arith) refl
      nothing_behind tt
