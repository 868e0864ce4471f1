-- ===== src/Penalty/Events.antt =====
-- The penalty box over a sequence of shares, closed connections and cleanups.
use go_pool.Base.{
  ℕ, ◌≤◌, ◌≡◌, ◌≢◌, inl, inr, refl, sym, ap, subst, ◌∙◌, Bool, true, false, List, [], ◌∷◌, Option,
  none, some, All, ltb, Bool-cases, Option-cases, arith,
}
use go_pool.Base.Bytes.{Bytes, bytes_eq, bytes_eq_refl, bytes_eq→eq}
use go_pool.Base.Assoc.{Assoc, lookup, bytes_keys}
use go_pool.Float.{Float}
use go_pool.Penalty.{
  PenaltyBox, PenaltyConfig, check_banned, is_active, record_share, cleanup_connection,
  cleanup_round, open_bans,
}
use go_pool.Penalty.Bans.{record_share_elsewhere}

-- What happens to the box: a share, the end of a connection, or a round of `StartCleanup`.
pub data Event : Type 0 where
  shared : ℕ → Bytes → Bool → Event
  closed : ℕ → Bytes → Event
  swept : Event

is_active_earlier :
    (now t : ℕ) (o : Option ℕ) → now ≤ t → is_active t o ≡ true → is_active now o ≡ true
is_active_earlier now t none h k = cc
is_active_earlier now t (some b) h k = ground arith

lookup-open_bans :
    (now t : ℕ) (ip : Bytes) (m : Assoc Bytes ℕ)
    → now ≤ t
    → is_active t (lookup ip m) ≡ true
    → is_active t (lookup ip (open_bans now m)) ≡ true
unfolding open_bans
lookup-open_bans now t ip [] h k = k
lookup-open_bans now t ip ((j, b) ∷ m) h k = elim (Bool-cases (bytes_eq j ip)) [
  | inl same ↦
      let active : ltb t b ≡ true = rw same at k in
      let kept : ltb b now ≡ false = ground (arith, active) in rw kept (rw same active)
  | inr apart ↦
      let rest : is_active t (lookup ip (open_bans now m)) ≡ true =
        lookup-open_bans now t ip m h (rw apart at k) in
      elim (Bool-cases (ltb b now)) [ inl gone ↦ rw gone rest | inr kept ↦ rw kept (rw apart rest) ]
]

check_banned_earlier :
    (now t : ℕ) (ip : Bytes) (pb : PenaltyBox)
    → now ≤ t
    → check_banned t ip pb ≡ true
    → check_banned now ip pb ≡ true
unfolding check_banned
check_banned_earlier now t ip pb h k = is_active_earlier now t (lookup ip pb.banned) h k

apart_neq : (x y : Bytes) → bytes_eq x y ≡ false → x ≢ y
apart_neq x y h e =
    let same : bytes_eq x y ≡ true = subst (λ z. bytes_eq x z ≡ true) e (bytes_eq_refl x) in
    ground arith

module _ (fl : Float) (cfg : PenaltyConfig fl) where
  unfoldable pub apply_event : ℕ × Event → PenaltyBox → PenaltyBox
  apply_event (now, shared conn_id ip is_valid) pb =
      (record_share fl cfg now conn_id ip is_valid pb).1
  apply_event (now, closed conn_id ip) pb = cleanup_connection conn_id ip pb
  apply_event (now, swept) pb = cleanup_round now pb

  unfoldable pub apply_events : List (ℕ × Event) → PenaltyBox → PenaltyBox
  apply_events [] pb = pb
  apply_events (e ∷ es) pb = apply_events es (apply_event e pb)

  record_share_refused :
      (now conn_id : ℕ) (ip : Bytes) (is_valid : Bool) (pb : PenaltyBox)
      → check_banned now ip pb ≡ true
      → record_share fl cfg now conn_id ip is_valid pb ≡ (false, pb)
  unfolding record_share check_banned
  record_share_refused now conn_id ip is_valid pb h = elim (Option-cases (lookup ip pb.banned)) [
    | inl never ↦ absurd (ground (arith, ap (is_active now) never))
    | inr (ban_time, once) ↦ rw (once, record_share) (rw (rw once at h) refl)
  ]

  apply_event_kept :
      (t : ℕ) (ip : Bytes) (e : ℕ × Event) (pb : PenaltyBox)
      → e.0 ≤ t
      → check_banned t ip pb ≡ true
      → check_banned t ip (apply_event e pb) ≡ true
  unfolding apply_event
  apply_event_kept t ip (now, shared conn_id other is_valid) pb h k =
      elim (Bool-cases (bytes_eq other ip)) [
        | inl same ↦
            let same_ip : other ≡ ip = bytes_eq→eq other ip same in
            let refused : check_banned now other pb ≡ true =
              subst (λ x. check_banned now x pb ≡ true) (sym same_ip)
                (check_banned_earlier now t ip pb h k) in
            ap (λ r. check_banned t ip r.1)
              (record_share_refused now conn_id other is_valid pb refused)
            ∙ k
        | inr apart ↦
            record_share_elsewhere fl cfg now conn_id t other ip is_valid pb
              (apart_neq other ip apart)
            ∙ k
      ]
  apply_event_kept t ip (now, closed conn_id other) pb h k =
      unfold cleanup_connection check_banned in k
  apply_event_kept t ip (now, swept) pb h k =
      unfold cleanup_round check_banned in lookup-open_bans now t ip pb.banned h k

  -- A ban holds until its end, whatever shares come in and whatever is cleaned up before: an address
  -- that is banned at a time is still banned at that time behind any events up to then.
  pub apply_events-check_banned :
      (t : ℕ) (ip : Bytes) (events : List (ℕ × Event)) (pb : PenaltyBox)
      → All (λ e. e.0 ≤ t) events
      → check_banned t ip pb ≡ true
      → check_banned t ip (apply_events events pb) ≡ true
  unfolding apply_events
  apply_events-check_banned t ip [] pb h k = k
  apply_events-check_banned t ip (e ∷ es) pb h k =
      apply_events-check_banned t ip es (apply_event e pb) h.1 (apply_event_kept t ip e pb h.0 k)
