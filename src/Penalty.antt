-- ===== src/Penalty.antt =====
-- cmd/slave/penalty.go: the penalty box of a slave, which bans an address for too many shares or
-- for too many bad ones. A time is a count of nanoseconds, one for a call.
pub mod Bans
pub mod Events
use go_pool.Base.{
  ℕ, ◌+◌, ◌-◌, ◌*◌, ◌^◌, Bool, true, false, not, List, [], ◌∷◌, ◌++◌, Option, none, some, ltb, leb,
  ◌==◌, ◌&&◌, ◌||◌, if◌then◌else◌, length, drop,
}
use go_pool.Base.Bytes.{Bytes}
use go_pool.Base.Assoc.{Assoc, lookup, insert, erase, bytes_keys, nat_keys}
use go_pool.Float.{Float}

pub record ShareWindow : Type 0 where
  pub start_time : ℕ
  pub good : ℕ
  pub bad : ℕ
  pub last_share_time : ℕ
  pub share_timings : List ℕ

pub record PenaltyBox : Type 0 where
  pub banned : Assoc Bytes ℕ
  pub windows : Assoc ℕ ShareWindow
  pub ip_conns : Assoc Bytes (List ℕ)

abbrev pub or_none : Option (List ℕ) → List ℕ
or_none none = []
or_none (some conns) = conns

unfoldable pub contains : List ℕ → ℕ → Bool
contains [] val = false
contains (v ∷ slice) val = let rest = contains slice val in if v == val then true else rest

-- `now.Before(banTime)`, where there is a ban.
abbrev pub is_active : ℕ → Option ℕ → Bool
is_active now none = false
is_active now (some ban_time) = ltb now ban_time

-- `CheckBanned`
unfoldable pub check_banned : ℕ → Bytes → PenaltyBox → Bool
check_banned now ip pb = is_active now (lookup ip pb.banned)

-- The first connection time of a window, for `ShareTimings[0]`.
abbrev first_time : List ℕ → ℕ
first_time [] = 0
first_time (t ∷ ts) = t

unfoldable pub push_timing : ℕ → ℕ → List ℕ → List ℕ
push_timing size now timings =
    let longer = timings ++ (now ∷ []) in if ltb size (length longer) then drop 1 longer else longer

-- `delete(pb.windows, cid)` for each connection.
unfoldable pub drop_windows : List ℕ → Assoc ℕ ShareWindow → Assoc ℕ ShareWindow
drop_windows [] windows = windows
drop_windows (cid ∷ cids) windows = drop_windows cids (erase cid windows)

-- The ban of an address for a time, which clears the windows of its connections.
unfoldable pub ban : ℕ → Bytes → PenaltyBox → PenaltyBox
ban until ip pb = record pb {
  banned = insert ip until pb.banned;
  windows = drop_windows (or_none (lookup ip pb.ip_conns)) pb.windows;
}

abbrev remove_conn : ℕ → List ℕ → List ℕ
remove_conn conn_id [] = []
remove_conn conn_id (cid ∷ cids) =
    if cid == conn_id then remove_conn conn_id cids else cid ∷ remove_conn conn_id cids

abbrev drop_conn : ℕ → Bytes → Option (List ℕ) → Assoc Bytes (List ℕ) → Assoc Bytes (List ℕ)
drop_conn conn_id ip none m = m
drop_conn conn_id ip (some conns) m = elim (remove_conn conn_id conns) [
  | [] ↦ erase ip m
  | c ∷ cs ↦ insert ip (c ∷ cs) m
]

-- `CleanupConnection`
unfoldable pub cleanup_connection : ℕ → Bytes → PenaltyBox → PenaltyBox
cleanup_connection conn_id ip pb = record pb {
  windows = erase conn_id pb.windows;
  ip_conns = drop_conn conn_id ip (lookup ip pb.ip_conns) pb.ip_conns;
}

abbrev pub nanos_per_minute : ℕ
nanos_per_minute = 60000000000

unfoldable pub fresh_windows : ℕ → Assoc ℕ ShareWindow → Assoc ℕ ShareWindow
fresh_windows now [] = []
fresh_windows now ((conn_id, window) ∷ m) =
    let rest = fresh_windows now m in
    if ltb (10 * nanos_per_minute) (now - window.start_time) then rest else (conn_id, window) ∷ rest

-- The bans that `time.Now().After(banTime)` does not remove.
unfoldable pub open_bans : ℕ → Assoc Bytes ℕ → Assoc Bytes ℕ
open_bans now [] = []
open_bans now ((ip, ban_time) ∷ m) =
    let rest = open_bans now m in if ltb ban_time now then rest else (ip, ban_time) ∷ rest

-- One round of `StartCleanup`.
unfoldable pub cleanup_round : ℕ → PenaltyBox → PenaltyBox
cleanup_round now pb = record pb {
  windows = fresh_windows now pb.windows;
  banned = open_bans now pb.banned;
}

module _ (fl : Float) where
  open fl use {F, of_nat, div, lt}

  -- The settings of the slave, and the conversion `Seconds` of a duration.
  pub record PenaltyConfig : Type 0 where
    pub share_window : ℕ
    pub share_timing_window_size : ℕ
    pub max_shares_per_second : F
    pub ban_duration : ℕ
    pub bad_share_ratio : F
    pub seconds : ℕ → F

  module _ (cfg : PenaltyConfig) where
    abbrev new_window : ℕ → ShareWindow
    new_window now = record {
      start_time = now;
      good = 0;
      bad = 0;
      last_share_time = 0;
      share_timings = [];
    }

    abbrev live_window : ℕ → Option ShareWindow → Option ShareWindow
    live_window now none = none
    live_window now (some w) = if ltb cfg.share_window (now - w.start_time) then none else some w

    abbrev put_window : ℕ → ShareWindow → PenaltyBox → PenaltyBox
    put_window conn_id w pb = record pb { windows = insert conn_id w pb.windows }

    abbrev track : ℕ → Bytes → PenaltyBox → PenaltyBox
    track conn_id ip pb =
        let conns = or_none (lookup ip pb.ip_conns) in
        if contains conns conn_id
        then pb
        else record pb { ip_conns = insert ip (conns ++ (conn_id ∷ [])) pb.ip_conns }

    -- More shares than allowed between the first time on record and now.
    abbrev is_spam : ℕ → List ℕ → Bool
    is_spam now timings =
        leb 10 (length timings)
        && (ltb 0 (now - first_time timings)
            && lt cfg.max_shares_per_second
                (div (of_nat (length timings)) (cfg.seconds (now - first_time timings))))

    abbrev is_bad : ShareWindow → Bool
    is_bad w =
        leb 6 (w.good + w.bad)
        && (ltb 0 w.bad && lt cfg.bad_share_ratio (div (of_nat w.bad) (of_nat (w.good + w.bad))))

    abbrev counted : Bool → ShareWindow → ShareWindow
    counted true w = record w { good = w.good + 1 }
    counted false w = record w { bad = w.bad + 1 }

    -- The checks of `RecordShare` on the window of the connection.
    unfoldable pub record_in_window :
        ℕ → ℕ → Bytes → Bool → ShareWindow → PenaltyBox → Bool × PenaltyBox
    record_in_window now conn_id ip is_valid w pb =
        let w1 = record w {
          share_timings = push_timing cfg.share_timing_window_size now w.share_timings;
        } in
        let w2 = counted is_valid w1 in
        let until = now + cfg.ban_duration in
        if is_spam now w1.share_timings
        then (false, ban until ip (put_window conn_id w1 pb))
        else if is_bad w2
        then (false, ban until ip (put_window conn_id w2 pb))
        else (true, put_window conn_id (record w2 { last_share_time = now }) pb)

    unfoldable pub record_unbanned : ℕ → ℕ → Bytes → Bool → PenaltyBox → Bool × PenaltyBox
    record_unbanned now conn_id ip is_valid pb =
        elim (live_window now (lookup conn_id pb.windows)) [
          | none ↦
              let w = new_window now in
              record_in_window now conn_id ip is_valid w
                (track conn_id ip (put_window conn_id w pb))
          | some w ↦ record_in_window now conn_id ip is_valid w pb
        ]

    -- `RecordShare`
    unfoldable pub record_share : ℕ → ℕ → Bytes → Bool → PenaltyBox → Bool × PenaltyBox
    record_share now conn_id ip is_valid pb =
        let unbanned : PenaltyBox = record pb { banned = erase ip pb.banned } in
        elim (lookup ip pb.banned) [
          | none ↦ record_unbanned now conn_id ip is_valid pb
          | some ban_time ↦
              if ltb now ban_time
              then (false, pb)
              else record_unbanned now conn_id ip is_valid unbanned
        ]
