-- ===== src/Tests/Links.antt =====
-- The monitor of the queue, the link to a P2Pool and the updater, on small inputs.
use go_pool.Base.{ℕ, zero, suc, ◌≤◌, ◌≡◌, refl, true, false, List, [], ◌∷◌, some, none, arith}
use go_pool.Miner.Queue.{Status, QueuedVerification, VerifyQueue}
use go_pool.Miner.Monitor.{Answers, Monitor, count_status, monitor_loop}
use go_pool.Miner.Monitor.Muted.{monitor_loop_muted}
use go_pool.Miner.Notify.{P2PoolJob}
use go_pool.P2Pool.{garbled, message, Takers, has_ended, blocked}
use go_pool.P2Pool.Dispatch.{IsDispatched, dispatch_jobs_forwards}
use go_pool.Ledger.Store.{done, live, shipped, pure, ◌>>=◌}
use go_pool.Master.Transfers.{update_reward}
use go_pool.Master.Updater.{updater_round, info_of, updater_round-update_reward}
use go_pool.Miner.Refresher.{Refresh, Event, signal, round, refresher}
use go_pool.Miner.Refresher.Announced.{refresher-changes}
use go_pool.Tests.Blocks.{empty_tables}

abbrev waiting : ℕ → QueuedVerification
waiting n = record {
  id = n;
  share = record {
    connection_id = 1;
    params = record { major_version = 1; height = 9; block_blob = []; seed_hash = [] };
    expected_result = [];
    share_diff = 5;
    miner_addr = [];
    worker_id = [];
  };
  submitted_at = n;
  started_at = none;
  completed_at = none;
  status = Status.pending;
}

abbrev backlog : ℕ → List QueuedVerification
backlog zero = []
backlog (suc n) = waiting n ∷ backlog n

count_status-backlog : (n : ℕ) → count_status Status.pending (backlog n) ≡ n
count_status-backlog zero = refl
count_status-backlog (suc n) = omega (arith, count_status-backlog n)

abbrev queue : VerifyQueue
queue = record {
  rows = backlog 1001;
  next_id = 1002;
  stats = record { verified_count = 0; failed_count = 0; avg_verify_time = 0; max_verify_time = 0 };
}

abbrev all_answer : Answers
all_answer = record { pending_ok = true; processing_ok = true; oldest_ok = true }

abbrev raised : Monitor
raised = record { pending = 0; processing = 0; last_alert = some 100 }

monitor_loop_muted_example :
    (monitor_loop
      ((all_answer, 5000000000, queue) ∷ ((all_answer, 64000000000, queue) ∷ []))
      raised).0
    ≡ []
monitor_loop_muted_example =
    monitor_loop_muted ((all_answer, 5000000000, queue) ∷ ((all_answer, 64000000000, queue) ∷ []))
      100 raised
      (
        (refl, omega (arith, count_status-backlog 1001), omega arith),
        ((refl, omega (arith, count_status-backlog 1001), omega arith), tt),
      )
      refl

abbrev job_at : ℕ → P2PoolJob
job_at height = record { blob = []; height = height; job_id = []; seed_hash = []; target = [] }

abbrev two_and_one : Takers
two_and_one = record { jobs = 2; answers = 1 }

dispatch_jobs_forwards_example :
    IsDispatched two_and_one
      (job_at 1)
      (message true 0 (some (job_at 2)) ∷ (message false 541 none ∷ []))
      (garbled ∷ (message true 0 (some (job_at 3)) ∷ []))
      has_ended
    × IsDispatched two_and_one
        (job_at 1)
        (message true 0 (some (job_at 2)) ∷ (message false 541 none ∷ []))
        (message false 541 none ∷ (message true 0 (some (job_at 3)) ∷ []))
        blocked
dispatch_jobs_forwards_example =
    dispatch_jobs_forwards two_and_one (job_at 1)
      (message true 0 (some (job_at 2)) ∷ (message false 541 none ∷ [])) garbled none
      (message true 0 (some (job_at 3)) ∷ []) (tt, (tt, tt)) tt (omega arith) (omega arith)

updater_round-update_reward_example :
    (updater_round (some (record { height = 10; difficulty = 2000; target = 120 })) 0 >>= λ r.
    update_reward (some 700) >>= λ _. pure r.0)
      (live shipped empty_tables)
    ≡ (done 120, live shipped (record empty_tables { blockchain_info = info_of 10 700 2000 }))
updater_round-update_reward_example =
    updater_round-update_reward (record { height = 10; difficulty = 2000; target = 120 }) 700 0
      shipped empty_tables (omega arith) (omega arith) (omega arith) (omega arith)

abbrev refresh : Refresh
refresh = record {
  info = record {
    height = 7;
    future_height = 0;
    seed_hash = [];
    difficulty = 1;
    block_reward = 0;
    major_version = 1;
  };
  last_template_at = 100;
}

abbrev heights : List Event
heights =
    round 105 (some 7) (some 1)
    ∷ (signal (some 8) none ∷ (round 110 none none ∷ (round 400 (some 8) (some 2) ∷ [])))

refresher-changes_example :
    (1 ≤ (refresher 60 heights refresh).1) × ((refresher 60 heights refresh).0.info.height ≡ 8)
refresher-changes_example =
    refresher-changes 60 heights refresh (omega arith)
      (omega arith, (omega arith, (tt, (omega arith, tt))))
