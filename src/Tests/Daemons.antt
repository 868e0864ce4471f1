-- ===== src/Tests/Daemons.antt =====
-- The verification queue, the nicehash and P2Pool jobs, and the daemon pool at concrete inputs.
use go_pool.Base.{
  Holds, ℕ, zero, suc, ◌+◌, ◌%◌, ◌≤◌, ◌≡◌, ◌≢◌, inl, refl, subst, true, [], ◌∷◌, Option, none, some,
  ok, arith, get_elem?,
}
use Prim.{absurd}
use go_pool.Base.Bytes.{Bytes}
use go_pool.Miner.Queue.{
  take_next, start_row, CalcPowParams, ShareToVerify, QueuedVerification, VerifyQueue, pending,
  processing, next_pending, submit, cleanup,
}
use go_pool.Miner.Text.{after_first}
use go_pool.Miner.Life.{Advance, status_of}
use go_pool.Miner.Refines.{Steps-Advance}
use go_pool.Miner.Workers.{Step, takes, more, done, submits, cleans}
use go_pool.Miner.Lost.{IsLost, Steps-IsLost}
use go_pool.Miner.Jobs.{NicehashJob}
use go_pool.Miner.Nonces.{issue_all, issue_all_distinct}
use go_pool.Miner.Notify.{Source, P2PoolJob, next_p2pool_job}
use go_pool.Miner.Targets.{IsRetargeted, next_p2pool_job_diff}
use go_pool.DaemonPool.{
  PooledConnection, DaemonPool, Call, Openings, Meanwhile, succeeded, all_failed, attempts, get,
  connection_text, is_connection_error, execute_with_retry,
}
use go_pool.DaemonPool.Retry.{execute_with_retry_calls, execute_with_retry_reaches}
use go_pool.Tests.Submits.{digits, conn, state}
use go_pool.Tests.Bans.{whole}

abbrev share : ShareToVerify
share = record {
  connection_id = 1;
  params = record { major_version = 1; height = 9; block_blob = []; seed_hash = [] };
  expected_result = [];
  share_diff = 1;
  miner_addr = [];
  worker_id = [];
}

abbrev lost_row : QueuedVerification
lost_row = record {
  id = 1;
  share = share;
  submitted_at = 3;
  started_at = some 4;
  completed_at = none;
  status = processing;
}

abbrev table : VerifyQueue
table = record {
  rows = lost_row ∷ [];
  next_id = 2;
  stats = record { verified_count = 0; failed_count = 0; avg_verify_time = 0; max_verify_time = 0 };
}

abbrev no_pow : CalcPowParams → Option Bytes
no_pow params = none

Steps-IsLost_example : IsLost lost_row (cleanup 9 (submit true 8 share table), [])
Steps-IsLost_example =
    Steps-IsLost no_pow lost_row (table, []) (cleanup 9 (submit true 8 share table), [])
      (more (table, []) (submit true 8 share table, []) (cleanup 9 (submit true 8 share table), [])
        (submits true 8 share table [])
        (more (submit true 8 share table, []) (cleanup 9 (submit true 8 share table), [])
          (cleanup 9 (submit true 8 share table), []) (cleans 9 (submit true 8 share table) [])
          (done (cleanup 9 (submit true 8 share table), []))))
      (record {
        among = inl refl;
        is_processing = refl;
        untaken = tt;
        ascending = (omega arith, omega arith);
      })

abbrev waiting : ℕ → ℕ → QueuedVerification
waiting id time = record {
  id = id;
  share = share;
  submitted_at = time;
  started_at = none;
  completed_at = none;
  status = pending;
}

abbrev empty : VerifyQueue
empty = record {
  rows = [];
  next_id = 1;
  stats = record { verified_count = 0; failed_count = 0; avg_verify_time = 0; max_verify_time = 0 };
}

abbrev one_row : VerifyQueue
one_row = record empty { rows = waiting 1 8 ∷ []; next_id = 2 }

abbrev one_taken : VerifyQueue
one_taken = record one_row { rows = start_row 9 (waiting 1 8) ∷ [] }

enters : submit true 8 share empty ≡ one_row
unfolding submit
enters = refl

takes_it : take_next 9 one_row ≡ some (waiting 1 8, one_taken)
unfolding take_next next_pending
takes_it = refl

Steps-Advance_example : Advance (status_of 1 one_row.rows) (status_of 1 one_taken.rows)
Steps-Advance_example =
    Steps-Advance no_pow empty (one_row, []) (one_taken, waiting 1 8 ∷ []) 1 refl
      (more (empty, []) (one_row, []) (one_row, [])
        (subst (λ q. Step no_pow (empty, []) (q, [])) enters (submits true 8 share empty []))
        (done (one_row, [])))
      (takes 9 one_row [] (waiting 1 8) one_taken takes_it)

abbrev shared_job : NicehashJob
shared_job = record {
  hashing_blob = digits 0 43;
  template_blob = 7 ∷ [];
  height = 9;
  seed_hash = [];
  last_nonce = 4;
}

issue_all_distinct_example :
    issue_all ((none, ([], 5)) ∷ (none, ([], 6)) ∷ []) (state 5).info shared_job ≡ ok (5 ∷ 6 ∷ [])
issue_all_distinct_example =
    issue_all_distinct ((none, ([], 5)) ∷ (none, ([], 6)) ∷ []) (state 5).info shared_job
      (omega arith) (omega arith) (omega arith)

abbrev source : Source whole
source = record { answer = none; salt = []; info = (state 5).info; nicehash_job = shared_job }

abbrev p2pool_job : ℕ → P2PoolJob
p2pool_job c = record { blob = []; height = 9; job_id = []; seed_hash = []; target = digits c 8 }

next_p2pool_job_diff_example :
    Holds
      (IsRetargeted (digits b'f' 8) (conn 1))
      (next_p2pool_job whole 100 (p2pool_job b'f') (p2pool_job b'0') (conn 1))
next_p2pool_job_diff_example =
    next_p2pool_job_diff whole 100 (p2pool_job b'f') (p2pool_job b'0') (conn 1)

abbrev pool : DaemonPool
pool = record {
  connections =
      record { client = 0; created_at = 0 } ∷ (record { client = 1; created_at = 0 } ∷ []);
  size = 2;
  max_age = 5;
  current = 0;
}

-- The first client answers, and the other one fails with `connection`.
abbrev answers : ℕ → Option Bytes
answers zero = none
answers (suc n) = some connection_text

abbrev call : Call
call i client = answers client

abbrev closed : Openings
closed i = (9, none)

is_failure : is_connection_error connection_text ≡ true
unfolding is_connection_error after_first
is_failure = refl

other_fails :
    (i k : ℕ) (c : PooledConnection)
    → get_elem? pool.connections k ≡ some c
    → k ≢ 0
    → (err : Bytes) × ((call i c.client ≡ some err) × (is_connection_error err ≡ true))
other_fails i zero c e apart = absurd (apart refl)
other_fails i (suc zero) c e apart =
    let same : record { client = 1; created_at = 0 } ≡ c = cc in
    (connection_text, (subst (λ v. answers v.client ≡ some connection_text) same refl, is_failure))
other_fails i (suc (suc k)) c e apart = cc

abbrev undisturbed : Meanwhile
undisturbed i p = p

-- Another caller in lock-step with this one: it moves the pool on before each attempt.
abbrev lock_step : Meanwhile
lock_step i p = record p { current = (p.current + 1) % 2 }

lock_step_fails :
    (execute_with_retry call closed lock_step (record pool { current = 1 })).0 ≡ all_failed
unfolding execute_with_retry attempts get is_connection_error after_first
lock_step_fails = refl

execute_with_retry_calls_example : (execute_with_retry call closed undisturbed pool).1.0 ≤ 3
execute_with_retry_calls_example = execute_with_retry_calls call closed undisturbed pool

execute_with_retry_reaches_example : (execute_with_retry call closed undisturbed pool).0 ≡ succeeded
execute_with_retry_reaches_example =
    execute_with_retry_reaches call closed undisturbed pool 0
      (record { client = 0; created_at = 0 }) refl (omega arith) (omega arith) (λ i. refl)
      (λ i q. refl) (λ i. refl) other_fails
