-- ===== src/Penalty/Bans.antt =====
-- Whom `RecordShare` bans.
use go_pool.Base.{
  ℕ, ◌+◌, ◌<◌, ◌≡◌, ◌≢◌, ◌⊎◌, inl, inr, refl, sym, ap, ◌∙◌, subst, Bool, true, false, not, ltb,
  lt→ltb, if◌then◌else◌, Bool-cases, Option-cases, arith,
}
use go_pool.Base.Bytes.{Bytes, bytes_eq, bytes_eq_refl, bytes_eq→eq}
use go_pool.Base.Assoc.{
  Assoc, lookup, insert, erase, bytes_keys, nat_keys, lookup-insert, lookup-erase,
}
use go_pool.Float.{Float}
use go_pool.Penalty.{
  ShareWindow, PenaltyBox, PenaltyConfig, ban, check_banned, is_active, contains, push_timing,
  is_spam, is_bad, counted, track, put_window, live_window, or_none, new_window, record_in_window,
  record_unbanned, record_share,
}

module _ (fl : Float) (cfg : PenaltyConfig fl) where
  -- A share is let through and no ban changes, or its address is banned from now on.
  abbrev IsVerdict : ℕ → Bytes → Assoc Bytes ℕ → Bool × PenaltyBox → Type 0
  IsVerdict now ip bans r =
      ((r.0 ≡ true) × (r.1.banned ≡ bans))
      ⊎ ((r.0 ≡ false) × (r.1.banned ≡ insert ip (now + cfg.ban_duration) bans))

  in_window-IsVerdict :
      (now conn_id : ℕ) (ip : Bytes) (is_valid : Bool) (w : ShareWindow) (pb : PenaltyBox)
      → IsVerdict now ip pb.banned (record_in_window fl cfg now conn_id ip is_valid w pb)
  unfolding record_in_window ban
  in_window-IsVerdict now conn_id ip is_valid w pb =
      let w1 = record w {
        share_timings = push_timing cfg.share_timing_window_size now w.share_timings;
      } in
      elim (Bool-cases (is_spam fl cfg now w1.share_timings)) [
        | inl spam ↦ rw spam (inr (refl, refl))
        | inr calm ↦ elim (Bool-cases (is_bad fl cfg (counted fl cfg is_valid w1))) [
          | inl bad ↦ rw (calm, bad) (inr (refl, refl))
          | inr good ↦ rw (calm, good) (inl (refl, refl))
        ]
      ]

  track_banned :
      (conn_id : ℕ) (ip : Bytes) (pb : PenaltyBox) → (track fl cfg conn_id ip pb).banned ≡ pb.banned
  track_banned conn_id ip pb =
      elim (Bool-cases (contains (or_none (lookup ip pb.ip_conns)) conn_id)) [
        | inl known ↦ rw known refl
        | inr new ↦ rw new refl
      ]

  window-IsVerdict :
      (now conn_id : ℕ) (ip : Bytes) (is_valid : Bool) (pb : PenaltyBox)
      → IsVerdict now ip pb.banned (record_unbanned fl cfg now conn_id ip is_valid pb)
  unfolding record_unbanned
  window-IsVerdict now conn_id ip is_valid pb =
      let w0 : ShareWindow = new_window fl cfg now in
      let tracked : PenaltyBox = track fl cfg conn_id ip (put_window fl cfg conn_id w0 pb) in
      let same : tracked.banned ≡ pb.banned =
        track_banned conn_id ip (put_window fl cfg conn_id w0 pb) in
      elim (Option-cases (live_window fl cfg now (lookup conn_id pb.windows))) [
        | inl fresh ↦
            rw (fresh, record_unbanned)
              (subst
                (λ bans.
                  IsVerdict now ip bans
                    (record_in_window fl cfg now conn_id ip is_valid w0 tracked))
                same (in_window-IsVerdict now conn_id ip is_valid w0 tracked))
        | inr (w, old) ↦
            rw (old, record_unbanned) (in_window-IsVerdict now conn_id ip is_valid w pb)
      ]

  -- What a ban from now on means for a check of any address.
  banned_after :
      (now t : ℕ) (ip other : Bytes) (bans : Assoc Bytes ℕ)
      → is_active t (lookup other (insert ip (now + cfg.ban_duration) bans)) ≡ (
          if bytes_eq ip other
          then ltb t (now + cfg.ban_duration)
          else is_active t (lookup other bans))
  banned_after now t ip other bans =
      ap (is_active t) (lookup-insert other ip (now + cfg.ban_duration) bans)
      ∙ elim (Bool-cases (bytes_eq ip other)) [
        | inl same ↦ rw same refl
        | inr apart ↦ rw apart refl
      ]

  verdict_check :
      (now : ℕ) (ip : Bytes) (bans : Assoc Bytes ℕ) (r : Bool × PenaltyBox)
      → 0 < cfg.ban_duration
      → is_active now (lookup ip bans) ≡ false
      → IsVerdict now ip bans r
      → r.0 ≡ not (check_banned now ip r.1)
  unfolding check_banned
  verdict_check now ip bans r h off (inl (passed, same)) =
      passed ∙ sym (ap not (ap (λ m. is_active now (lookup ip m)) same ∙ off))
  verdict_check now ip bans r h off (inr (stopped, set)) =
      let banned : check_banned now ip r.1 ≡ true =
        ap (λ m. is_active now (lookup ip m)) set
        ∙ banned_after now now ip ip bans
        ∙ rw (bytes_eq_refl ip) (lt→ltb now (now + cfg.ban_duration) (omega arith)) in
      stopped ∙ sym (ap not banned)

  -- The same for addresses other than the one of the share.
  IsSameElsewhere : Bytes → Assoc Bytes ℕ → Assoc Bytes ℕ → Type 0
  IsSameElsewhere ip bans old =
      (other : Bytes) → bytes_eq ip other ≡ false → lookup other bans ≡ lookup other old

  -- An address that is banned stays so; else the share has a verdict, on bans without an old one.
  record_share_cases :
      (now conn_id : ℕ) (ip : Bytes) (is_valid : Bool) (pb : PenaltyBox)
      → ((check_banned now ip pb ≡ true)
          × (record_share fl cfg now conn_id ip is_valid pb ≡ (false, pb)))
        ⊎ ((bans : Assoc Bytes ℕ) × (is_active now (lookup ip bans) ≡ false)
            × IsSameElsewhere ip bans pb.banned
            × IsVerdict now ip bans (record_share fl cfg now conn_id ip is_valid pb))
  unfolding record_share check_banned IsSameElsewhere
  record_share_cases now conn_id ip is_valid pb = elim (Option-cases (lookup ip pb.banned)) [
    | inl never ↦ inr (
      pb.banned,
      ap (is_active now) never,
      (λ other apart. refl),
      rw (never, record_share) (window-IsVerdict now conn_id ip is_valid pb),
    )
    | inr (ban_time, once) ↦ elim (Bool-cases (ltb now ban_time)) [
      | inl still ↦ inl (ap (is_active now) once ∙ still, rw (once, record_share) (rw still refl))
      | inr over ↦ inr (
        erase ip pb.banned,
        ap (is_active now) (lookup-erase ip ip pb.banned) ∙ rw (bytes_eq_refl ip) refl,
        (λ other apart. lookup-erase other ip pb.banned ∙ rw apart refl),
        rw (once, record_share)
            (rw over (
              window-IsVerdict now conn_id ip is_valid
                (record pb { banned = erase ip pb.banned }))),
      )
    ]
  ]

  -- `RecordShare` refuses a share exactly if its address is banned behind the call, for a ban that
  -- lasts some time.
  pub record_share-check_banned :
      (now conn_id : ℕ) (ip : Bytes) (is_valid : Bool) (pb : PenaltyBox)
      → 0 < cfg.ban_duration
      → (record_share fl cfg now conn_id ip is_valid pb).0
        ≡ not (check_banned now ip (record_share fl cfg now conn_id ip is_valid pb).1)
  record_share-check_banned now conn_id ip is_valid pb h =
      elim (record_share_cases now conn_id ip is_valid pb) [
        | inl (banned, e) ↦
            ap (λ r. r.0) e ∙ sym (ap not (ap (λ r. check_banned now ip r.1) e ∙ banned))
        | inr (bans, off, elsewhere, verdict) ↦
            verdict_check now ip bans (record_share fl cfg now conn_id ip is_valid pb) h off verdict
      ]

  elsewhere_check :
      (now t : ℕ) (ip other : Bytes) (bans : Assoc Bytes ℕ) (pb : PenaltyBox)
      (r : Bool × PenaltyBox)
      → bytes_eq ip other ≡ false
      → IsSameElsewhere ip bans pb.banned
      → IsVerdict now ip bans r
      → check_banned t other r.1 ≡ check_banned t other pb
  unfolding check_banned IsSameElsewhere
  elsewhere_check now t ip other bans pb r apart elsewhere (inl (passed, same)) =
      ap (λ m. is_active t (lookup other m)) same ∙ ap (is_active t) (elsewhere other apart)
  elsewhere_check now t ip other bans pb r apart elsewhere (inr (stopped, set)) =
      ap (λ m. is_active t (lookup other m)) set
      ∙ banned_after now t ip other bans
      ∙ rw apart (ap (is_active t) (elsewhere other apart))

  -- A share of one address neither bans another one, at any time, nor lifts its ban.
  pub record_share_elsewhere :
      (now conn_id t : ℕ) (ip other : Bytes) (is_valid : Bool) (pb : PenaltyBox)
      → ip ≢ other
      → check_banned t other (record_share fl cfg now conn_id ip is_valid pb).1
        ≡ check_banned t other pb
  record_share_elsewhere now conn_id t ip other is_valid pb h =
      elim (record_share_cases now conn_id ip is_valid pb) [
        | inl (banned, e) ↦ ap (λ r. check_banned t other r.1) e
        | inr (bans, off, elsewhere, verdict) ↦ elim (Bool-cases (bytes_eq ip other)) [
          | inl same ↦ absurd (h (bytes_eq→eq ip other same))
          | inr apart ↦
              elsewhere_check now t ip other bans pb
                (record_share fl cfg now conn_id ip is_valid pb) apart elsewhere verdict
        ]
      ]
