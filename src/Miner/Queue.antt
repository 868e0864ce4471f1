-- ===== src/Miner/Queue.antt =====
-- cmd/slave/verify_queue.go: the queue of shares that workers verify with the daemon. The table is a
-- list in the order of insertion; the encoding of a share as JSON is left out, and the daemon is an
-- argument. Times are nanoseconds.
use go_pool.Base.{
  ℕ, ◌+◌, ◌-◌, ◌/◌, Bool, true, false, ◌&&◌, List, [], ◌∷◌, ◌++◌, Option, none, some, ltb, leb,
  ◌==◌, if◌then◌else◌,
}
use go_pool.Base.Bytes.{Bytes, bytes_eq}

-- The daemon's `CalcPowParameters`.
pub record CalcPowParams : Type 0 where
  pub major_version : ℕ
  pub height : ℕ
  pub block_blob : Bytes
  pub seed_hash : Bytes

pub record ShareToVerify : Type 0 where
  pub connection_id : ℕ
  pub params : CalcPowParams
  pub expected_result : Bytes
  pub share_diff : ℕ
  pub miner_addr : Bytes
  pub worker_id : Bytes

pub data Status : Type 0 where
  pending processing verified failed : Status

pub record QueuedVerification : Type 0 where
  pub id : ℕ
  pub share : ShareToVerify
  pub submitted_at : ℕ
  pub started_at : Option ℕ
  pub completed_at : Option ℕ
  pub status : Status

pub record QueueStats : Type 0 where
  pub verified_count : ℕ
  pub failed_count : ℕ
  pub avg_verify_time : ℕ
  pub max_verify_time : ℕ

pub record VerifyQueue : Type 0 where
  pub rows : List QueuedVerification
  pub next_id : ℕ
  pub stats : QueueStats

-- `Submit`; the Boolean says whether the insert goes through.
unfoldable pub submit : Bool → ℕ → ShareToVerify → VerifyQueue → VerifyQueue
submit false now share q = q
submit true now share q = record q {
  rows =
      q.rows
      ++ (record {
        id = q.next_id;
        share = share;
        submitted_at = now;
        started_at = none;
        completed_at = none;
        status = pending;
      }
          ∷ []);
  next_id = q.next_id + 1;
}

abbrev pub is_pending : Status → Bool
is_pending pending = true
is_pending processing = false
is_pending verified = false
is_pending failed = false

abbrev pub is_done : Status → Bool
is_done pending = false
is_done processing = false
is_done verified = true
is_done failed = true

abbrev pub earlier : QueuedVerification → Option QueuedVerification → QueuedVerification
earlier x none = x
earlier x (some y) = if leb x.submitted_at y.submitted_at then x else y

-- `WHERE status = 'pending' ORDER BY submitted_at ASC LIMIT 1`
unfoldable pub next_pending : List QueuedVerification → Option QueuedVerification
next_pending [] = none
next_pending (x ∷ xs) =
    let rest = next_pending xs in if is_pending x.status then some (earlier x rest) else rest

abbrev pub update_row :
    (QueuedVerification → QueuedVerification)
    → ℕ
    → List QueuedVerification
    → List QueuedVerification
update_row f id [] = []
update_row f id (x ∷ xs) = (if x.id == id then f x else x) ∷ update_row f id xs

abbrev pub start_row : ℕ → QueuedVerification → QueuedVerification
start_row now x = record x { status = processing; started_at = some now }

abbrev pub finish_row : Status → ℕ → QueuedVerification → QueuedVerification
finish_row status now x = record x { status = status; completed_at = some now }

-- `updateStats`
unfoldable pub update_stats : ℕ → QueueStats → QueueStats
update_stats duration s = record s {
  verified_count = s.verified_count + 1;
  avg_verify_time = if s.avg_verify_time == 0 then duration else (s.avg_verify_time + duration) / 2;
  max_verify_time = if ltb s.max_verify_time duration then duration else s.max_verify_time;
}

-- `markFailed`; the Boolean says whether the update goes through.
unfoldable pub mark_failed : Bool → ℕ → ℕ → VerifyQueue → VerifyQueue
mark_failed stored now id q = record q {
  rows = if stored then update_row (finish_row failed now) id q.rows else q.rows;
  stats = record q.stats { failed_count = q.stats.failed_count + 1 };
}

abbrev pub mark_verified : Bool → ℕ → ℕ → ℕ → VerifyQueue → VerifyQueue
mark_verified stored now duration id q = record q {
  rows = if stored then update_row (finish_row verified now) id q.rows else q.rows;
  stats = update_stats duration q.stats;
}

-- The first half of `processNext`: the transaction that takes the oldest pending row.
unfoldable pub take_next : ℕ → VerifyQueue → Option (QueuedVerification × VerifyQueue)
take_next now q = elim (next_pending q.rows) [
  | none ↦ none
  | some x ↦ some (x, record q { rows = update_row (start_row now) x.id q.rows })
]

-- The second half: the verdict on the row that was taken.
unfoldable pub finish :
    (CalcPowParams → Option Bytes) → Bool → ℕ → ℕ → QueuedVerification → VerifyQueue → VerifyQueue
finish calc_pow stored started now x q = elim (calc_pow x.share.params) [
  | none ↦ mark_failed stored now x.id q
  | some pow ↦
      if bytes_eq pow x.share.expected_result
      then mark_verified stored now (now - started) x.id q
      else mark_failed stored now x.id q
]

-- `processNext`, with no other worker between its halves.
unfoldable pub process_next :
    (CalcPowParams → Option Bytes) → Bool → ℕ → ℕ → VerifyQueue → VerifyQueue
process_next calc_pow stored started now q = elim (take_next started q) [
  | none ↦ q
  | some (x, q') ↦ finish calc_pow stored started now x q'
]

abbrev pub before : ℕ → Option ℕ → Bool
before cutoff none = false
before cutoff (some t) = ltb t cutoff

-- `cleanup`: rows that ended more than an hour ago.
unfoldable pub cleanup_rows : ℕ → List QueuedVerification → List QueuedVerification
cleanup_rows cutoff [] = []
cleanup_rows cutoff (x ∷ xs) =
    let rest = cleanup_rows cutoff xs in
    if is_done x.status && before cutoff x.completed_at then rest else x ∷ rest

abbrev pub nanos_per_hour : ℕ
nanos_per_hour = 3600000000000

unfoldable pub cleanup : ℕ → VerifyQueue → VerifyQueue
cleanup now q = record q { rows = cleanup_rows (now - nanos_per_hour) q.rows }
