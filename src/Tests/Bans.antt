-- ===== src/Tests/Bans.antt =====
-- The penalty box on a small input.
use go_pool.Base.{
  ℕ, ◌+◌, ◌-◌, ◌*◌, ◌/◌, ◌≡◌, refl, true, not, [], ◌∷◌, arith, ltb, leb, ◌==◌, false,
}
use go_pool.Base.Bytes.{Bytes}
use go_pool.Float.{Float, ℤ}
use go_pool.Penalty.{PenaltyBox, PenaltyConfig, record_share, check_banned}
use go_pool.Penalty.Bans.{record_share-check_banned}
use go_pool.Penalty.Events.{shared, closed, swept, apply_events, apply_events-check_banned}

abbrev pub whole : Float
whole = record {
  F = ℕ;
  of_nat = λ n. n;
  to_nat = λ n. n;
  add = λ a b. a + b;
  sub = λ a b. a - b;
  mul = λ a b. a * b;
  div = λ a b. a / b;
  lt = λ a b. ltb a b;
  le = λ a b. leb a b;
  eq = λ a b. a == b;
  to_int = λ n. ℤ.pos n;
  round = λ n. n;
  not_finite = λ _. false;
  bits = λ n. n;
  of_bits = λ n. n;
}

abbrev pub cfg : PenaltyConfig whole
cfg = record {
  share_window = 100;
  share_timing_window_size = 100;
  max_shares_per_second = 10;
  ban_duration = 50;
  bad_share_ratio = 0;
  seconds = λ n. n;
}

abbrev pub home : Bytes
home = 1 ∷ []

abbrev pub away : Bytes
away = 2 ∷ []

abbrev pub box : PenaltyBox
box = record { banned = (away, 90) ∷ []; windows = []; ip_conns = [] }

record_share-check_banned_example :
    (record_share whole cfg 7 1 home true box).0
    ≡ not (check_banned 7 home (record_share whole cfg 7 1 home true box).1)
record_share-check_banned_example =
    record_share-check_banned whole cfg 7 1 home true box (omega arith)

away_banned : check_banned 80 away box ≡ true
unfolding check_banned
away_banned = refl

apply_events-check_banned_example :
    check_banned 80 away
      (apply_events whole cfg ((7, shared 1 home true) ∷ (8, closed 1 home) ∷ (9, swept) ∷ []) box)
    ≡ true
apply_events-check_banned_example =
    apply_events-check_banned whole cfg 80 away
      ((7, shared 1 home true) ∷ (8, closed 1 home) ∷ (9, swept) ∷ []) box
      (omega arith, (omega arith, (omega arith, tt))) away_banned
