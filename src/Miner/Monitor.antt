-- ===== src/Miner/Monitor.antt =====
-- cmd/slave/verify_queue.go: `monitorLoop`, `alert` and `metricsLoop`, on the queue of Queue.antt. The
-- counts of `QueueStats` that the monitor sets and the time of its last alert stand by themselves.
pub mod Muted
use go_pool.Base.{
  ℕ, ◌+◌, ◌-◌, ◌*◌, ◌/◌, Bool, true, false, not, ◌&&◌, List, [], ◌∷◌, ◌++◌, Option, none, some, ltb,
  if◌then◌else◌,
}
use go_pool.Miner.Queue.{Status, pending, processing, QueuedVerification, VerifyQueue, cleanup}

pub record Monitor : Type 0 where
  pub pending : ℕ
  pub processing : ℕ
  pub last_alert : Option ℕ

pub data Alert : Type 0 where
  queue_depth queue_backup : ℕ → Alert

abbrev pub minute : ℕ
minute = 60 * 1000000000

abbrev is_muted : ℕ → Option ℕ → Bool
is_muted now none = false
is_muted now (some last) = ltb now (last + minute)

-- `alert`: what is logged, and the state behind it.
unfoldable pub alert : ℕ → Alert → Monitor → List Alert × Monitor
alert now a m =
    (if is_muted now m.last_alert then [] else a ∷ [], record m { last_alert = some now })

abbrev has_status : Status → QueuedVerification → Bool
has_status Status.pending q = elim q.status [ Status.pending ↦ true | _ ↦ false ]
has_status Status.processing q = elim q.status [ Status.processing ↦ true | _ ↦ false ]
has_status Status.verified q = elim q.status [ Status.verified ↦ true | _ ↦ false ]
has_status Status.failed q = elim q.status [ Status.failed ↦ true | _ ↦ false ]

-- `SELECT COUNT(*)` for a status.
abbrev pub count_status : Status → List QueuedVerification → ℕ
count_status s [] = 0
count_status s (q ∷ qs) = (if has_status s q then 1 else 0) + count_status s qs

-- `MIN(submitted_at)` of the pending rows; `none` is the NULL of no row.
abbrev pub oldest_pending : List QueuedVerification → Option ℕ
oldest_pending [] = none
oldest_pending (q ∷ qs) =
    let rest = oldest_pending qs in
    if has_status Status.pending q
    then (elim rest [
      | none ↦ some q.submitted_at
      | some t ↦ some (if ltb q.submitted_at t then q.submitted_at else t)
    ])
    else rest

-- The two tests of a round, and what it logs.
abbrev pub check_depth : ℕ → Bool → ℕ → Monitor → List Alert × Monitor
check_depth now answered count m =
    if answered && ltb 1000 count then alert now (queue_depth count) m else ([], m)

abbrev pub check_backup : ℕ → Option ℕ → Monitor → List Alert × Monitor
check_backup now none m = ([], m)
check_backup now (some oldest) m =
    if ltb 0 oldest && ltb (oldest + 30 * 1000000000) now
    then alert now (queue_backup (now - oldest)) m
    else ([], m)

abbrev pub when_answered : Bool → Option ℕ → Option ℕ
when_answered true o = o
when_answered false o = none

-- What the queries of a round answer: an error leaves a count at 0.
pub record Answers : Type 0 where
  pub pending_ok : Bool
  pub processing_ok : Bool
  pub oldest_ok : Bool

-- A round of `monitorLoop`.
unfoldable pub monitor_round : Answers → ℕ → VerifyQueue → Monitor → List Alert × Monitor
monitor_round a now q m =
    let count = if a.pending_ok then count_status Status.pending q.rows else 0 in
    let busy = if a.processing_ok then count_status Status.processing q.rows else 0 in
    let (logged, m') = check_depth now a.pending_ok count m in
    let (logged', m'') = check_backup now (when_answered a.oldest_ok (oldest_pending q.rows)) m' in
    (logged ++ logged', record m'' { pending = count; processing = busy })

-- The rounds of the monitor, each with its time and the queue that it finds.
unfoldable pub monitor_loop : List (Answers × ℕ × VerifyQueue) → Monitor → List Alert × Monitor
monitor_loop [] m = ([], m)
monitor_loop ((a, now, q) ∷ rounds) m =
    let (logged, m') = monitor_round a now q m in
    let (logged', m'') = monitor_loop rounds m' in (logged ++ logged', m'')

-- A row of `verify_metrics`.
pub record Metrics : Type 0 where
  pub timestamp : ℕ
  pub pending_count : ℕ
  pub processing_count : ℕ
  pub avg_duration_ms : ℕ
  pub max_duration_ms : ℕ
  pub verified_total : ℕ
  pub failed_total : ℕ

-- A round of `metricsLoop`; an error of the insert is only logged.
unfoldable pub metrics_round :
    Bool → ℕ → Monitor → VerifyQueue × List Metrics → VerifyQueue × List Metrics
metrics_round stored now m (q, rows) = (
  cleanup now q,
  if stored
      then rows
        ++ (record {
          timestamp = now / 1000000000;
          pending_count = m.pending;
          processing_count = m.processing;
          avg_duration_ms = q.stats.avg_verify_time / 1000000;
          max_duration_ms = q.stats.max_verify_time / 1000000;
          verified_total = q.stats.verified_count;
          failed_total = q.stats.failed_count;
        }
            ∷ [])
      else rows,
)
