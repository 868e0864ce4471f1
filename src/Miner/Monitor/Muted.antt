-- ===== src/Miner/Monitor/Muted.antt =====
-- cmd/slave/verify_queue.go `alert`: the limit on alerts counts from the last alert that was raised.
use go_pool.Base.{
  ℕ, ◌+◌, ◌<◌, ◌≡◌, refl, true, false, List, [], ◌∷◌, Option, none, some, ltb, ◌&&◌, ◌-◌, ◌*◌, Bool,
  if◌then◌else◌, lt→ltb, arith,
}
use go_pool.Miner.Queue.{Status, VerifyQueue}
use go_pool.Miner.Monitor.{
  Monitor, Alert, Answers, minute, alert, count_status, check_backup, oldest_pending, when_answered,
  queue_depth, queue_backup, monitor_round, monitor_loop,
}

-- Each round finds more than 1000 pending rows, less than a minute behind the one before.
abbrev pub IsBacklog : ℕ → List (Answers × ℕ × VerifyQueue) → Type 0
IsBacklog before [] = Unit {0}
IsBacklog before ((a, now, q) ∷ rounds) =
    ((a.pending_ok ≡ true) × (1000 < count_status Status.pending q.rows) × (now < before + minute))
    × IsBacklog now rounds

alert_muted :
    (now last : ℕ) (a : Alert) (m : Monitor)
    → m.last_alert ≡ some last
    → now < last + minute
    → alert now a m ≡ ([], record m { last_alert = some now })
unfolding alert
alert_muted now last a m e h = rw e (rw (lt→ltb now (last + minute) h) refl)

-- What a round may log besides the depth is muted by the alert on the depth.
Quiet : ℕ → List Alert × Monitor → Type 0
Quiet now (logged, m) = (logged ≡ []) × (m.last_alert ≡ some now)

alert_if-Quiet :
    (now : ℕ) (a : Alert) (b : Bool) (m : Monitor)
    → m.last_alert ≡ some now
    → Quiet now (if b then alert now a m else ([], m))
unfolding Quiet
alert_if-Quiet now a true m e = rw (alert_muted now now a m e (omega arith)) (refl, refl)
alert_if-Quiet now a false m e = (refl, e)

check_backup-Quiet :
    (now : ℕ) (oldest : Option ℕ) (m : Monitor)
    → m.last_alert ≡ some now
    → Quiet now (check_backup now oldest m)
unfolding Quiet
check_backup-Quiet now none m e = (refl, e)
check_backup-Quiet now (some oldest) m e =
    alert_if-Quiet now (queue_backup (now - oldest))
      (ltb 0 oldest && ltb (oldest + 30 * 1000000000) now) m e

monitor_round-Quiet :
    (a : Answers) (now before : ℕ) (q : VerifyQueue) (m : Monitor)
    → (a.pending_ok ≡ true) × (1000 < count_status Status.pending q.rows) × (now < before + minute)
    → m.last_alert ≡ some before
    → Quiet now (monitor_round a now q m)
unfolding monitor_round Quiet
monitor_round-Quiet a now before q m (answered, deep, soon) e =
    let count : ℕ = count_status Status.pending q.rows in
    let m' : Monitor = record m { last_alert = some now } in
    let quiet : Quiet now
        (check_backup now (when_answered a.oldest_ok (oldest_pending q.rows)) m') =
      check_backup-Quiet now (when_answered a.oldest_ok (oldest_pending q.rows)) m' refl in
    rw (answered, lt→ltb 1000 count deep, alert_muted now before (queue_depth count) m e soon)
      (quiet.0, quiet.1)

-- Once an alert was raised, a backlog of more than 1000 rows that every round of the monitor finds
-- again within a minute is never logged: each round's muted alert starts the minute anew.
pub monitor_loop_muted :
    (rounds : List (Answers × ℕ × VerifyQueue)) (before : ℕ) (m : Monitor)
    → IsBacklog before rounds
    → m.last_alert ≡ some before
    → (monitor_loop rounds m).0 ≡ []
unfolding monitor_loop Quiet
monitor_loop_muted [] before m h e = refl
monitor_loop_muted ((a, now, q) ∷ rounds) before m h e =
    let (silent, raised) = monitor_round-Quiet a now before q m h.0 e in
    rw (silent, monitor_loop_muted rounds now (monitor_round a now q m).1 h.1 raised) refl
