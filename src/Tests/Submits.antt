-- ===== src/Tests/Submits.antt =====
-- Submits of a miner at concrete inputs.
use go_pool.Base.{
  Holds, inl, ℕ, zero, suc, ◌≡◌, ◌⊎◌, refl, true, false, [], ◌∷◌, none, some, ok, panic, arith,
}
use go_pool.Base.Bytes.{Bytes}
use go_pool.Serializer.Encoding.{le_value}
use go_pool.Template.{hash_to_diff}
use go_pool.Penalty.{record_share, record_unbanned, record_in_window, push_timing}
use go_pool.Miner.Text.{is_hex, hex_decode, hex_value}
use go_pool.Miner.Conns.{ConnJob, Connection}
use go_pool.Miner.Checks.{
  is_malformed, accepted, RequestJob, submits, passed, checks, with_nonce, select_job,
}
use go_pool.Miner.State.{
  next, stopped, waits, Slave, Draws, Times, send_share, SubmitConfig, Daemon,
}
use go_pool.Miner.Submit.{handle_submit}
use go_pool.Miner.Credit.{
  Earned, handle_submit-Earned, handle_submit-checks, handle_submit_unverified,
}
use go_pool.Miner.Stall.{handle_submit_panics, handle_submit_stalls}
use go_pool.Tests.Codec.{ones}
use go_pool.Tests.Bans.{whole, cfg, box, home, away}

abbrev pub digits : ℕ → ℕ → Bytes
digits c zero = []
digits c (suc n) = c ∷ digits c n

abbrev job : ConnJob
job = record {
  blob = digits 0 43;
  hashing_blob = digits 0 43;
  diff = 1;
  job_id = b'j' ∷ [];
  nicehash_byte = 0;
}

abbrev pub conn : ℕ → Connection ℕ
conn id = record {
  id = id;
  is_tls = true;
  current_job = job;
  last_job = job;
  next_diff = 100;
  last_share = 0;
  nicehash = false;
  p2pool_diff = 0;
}

abbrev pub state : ℕ → Slave ℕ
state difficulty = record {
  conn = conn 1;
  conn_locked = false;
  info = record {
    height = 9;
    future_height = 10;
    seed_hash = [];
    difficulty = difficulty;
    block_reward = 60;
    major_version = 1;
  };
  info_locked = false;
  box = box;
  shares = [];
  queue = record {
    rows = [];
    next_id = 1;
    stats = record {
      verified_count = 0;
      failed_count = 0;
      avg_verify_time = 0;
      max_verify_time = 0;
    };
  };
  replies = [];
  packets = [];
  is_kicked = false;
}

-- A share of difficulty 1, and one whose hash is the number 1.
abbrev request : Bytes → RequestJob
request result = record {
  method = submits;
  job_id = b'j' ∷ [];
  nonce = digits b'0' 8;
  result = result;
}

abbrev high_hash : Bytes
high_hash = digits b'f' 64

abbrev low_hash : Bytes
low_hash = b'0' ∷ (b'1' ∷ digits b'0' 62)

abbrev config : SubmitConfig whole
config = record {
  use_p2pool = false;
  fee_address = b'f' ∷ [];
  share_target_time = 30;
  penalty = cfg;
}

abbrev daemon : Daemon
daemon = record {
  calc_pow = λ params. some (digits b'0' 64);
  submit_block = λ blob. none;
  block_hash = λ height. none;
  queue_works = true;
  p2pool_replies = true;
  signal_taken = true;
}

abbrev draws : Draws
draws = record { pays_fee = false; keeps = true }

abbrev times : Times
times = record { now = 7; now_ms = 5; later_ms = 6 }

high_hash_passes :
    (id : ℕ)
    → checks false (request high_hash) (conn id) ≡ ok (passed job (digits 0 43) (digits 0 43) 1)
unfolding checks select_job is_hex hex_decode hex_value with_nonce hash_to_diff le_value
high_hash_passes id = refl

home_allowed : (record_share whole cfg 7 1 home true box).0 ≡ true
unfolding record_share record_unbanned record_in_window push_timing
home_allowed = refl

away_refused : (record_share whole cfg 7 1 away false box).0 ≡ false
unfolding record_share
away_refused = refl

handle_submit-Earned_example :
    Holds
      (λ out.
        (out.1.shares ≡ (state 5).shares)
        ⊎ Earned whole config daemon (request high_hash) (conn 1) (state 5).info)
      (handle_submit whole config daemon draws times home
        (ones 99)
        []
        (request high_hash)
        (state 5))
handle_submit-Earned_example =
    handle_submit-Earned whole config daemon draws times home (ones 99) [] (request high_hash)
      (state 5) refl refl

handle_submit-checks_example :
    Holds
      (λ out.
        checks false (request high_hash) out.1.conn ≡ checks false (request high_hash) (conn 1))
      (handle_submit whole config daemon draws times home
        (ones 99)
        []
        (request high_hash)
        (state 5))
handle_submit-checks_example =
    handle_submit-checks whole config daemon draws times home (ones 99) [] (request high_hash)
      (state 5) refl refl

handle_submit_unverified_example :
    (m' : Slave ℕ) × ((handle_submit whole config daemon draws times home
          (ones 99)
          []
          (request high_hash)
          (state 5)
        ≡ ok (next, m'))
      × ((m'.shares ≡ (send_share (b'f' ∷ []) draws (ones 99) [] 1 (state 5)).shares)
          × (m'.replies ≡ accepted ∷ [])))
handle_submit_unverified_example =
    handle_submit_unverified whole config daemon draws times home (ones 99) [] (request high_hash)
      (state 5) job (digits 0 43) (digits 0 43) 1 refl refl (high_hash_passes 1) (omega arith)
      (omega arith) home_allowed (inl refl)

handle_submit_stalls_example :
    (m' : Slave ℕ) × ((handle_submit whole config daemon draws times away
          (ones 99)
          []
          (request high_hash)
          (state 1)
        ≡ ok (stopped, m'))
      × (handle_submit whole config daemon draws times home
            (ones 99)
            []
            (request high_hash)
            (record m' { conn = conn 2; conn_locked = false })
          ≡ ok (waits, record m' { conn = conn 2; conn_locked = true })))
handle_submit_stalls_example =
    handle_submit_stalls whole config daemon draws times away (ones 99) [] (request high_hash)
      (state 1) job (digits 0 43) (digits 0 43) 1 (digits b'0' 64) draws times home (ones 99) []
      (request high_hash) (conn 2) job (digits 0 43) (digits 0 43) 1 refl refl (high_hash_passes 1)
      (omega arith) refl refl away_refused (high_hash_passes 2)

low_hash_formed : is_malformed (request low_hash) ≡ false
unfolding is_hex
low_hash_formed = refl

low_hash_decoded : hex_decode low_hash ≡ some (1 ∷ digits 0 31)
unfolding hex_decode hex_value
low_hash_decoded = refl

zero_nonce : hex_decode (digits b'0' 8) ≡ some (digits 0 4)
unfolding hex_decode hex_value
zero_nonce = refl

the_job : select_job (request low_hash) (conn 1) ≡ some job
unfolding select_job
the_job = refl

low_value : le_value (1 ∷ digits 0 31) ≡ 1
unfolding le_value
low_value = refl

handle_submit_panics_example :
    handle_submit whole config daemon draws times home (ones 99) [] (request low_hash) (state 5)
    ≡ panic
handle_submit_panics_example =
    handle_submit_panics whole config daemon draws times home (ones 99) [] (request low_hash)
      (state 5) job (1 ∷ digits 0 31) (digits 0 4) refl low_hash_formed the_job refl
      low_hash_decoded zero_nonce (omega (arith, low_value)) (omega (arith, low_value))
