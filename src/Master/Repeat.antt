-- ===== src/Master/Repeat.antt =====
-- Which payments `Withdraw` marks as sent.
use go_pool.Base.{
  ℕ, ◌^◌, ◌≤◌, ◌<◌, ◌≡◌, ◌≢◌, refl, ap, ◌∙◌, true, false, List, [], ◌∷◌, ◌++◌, Option, none, some,
  ltb, Bool-cases, inl, inr, All, arith,
}
use go_pool.Base.Bytes.{Bytes, bytes_eq_refl}
use go_pool.Base.Assoc.{Assoc}
use go_pool.Ledger.Store.{
  Payment, sent, Tables, Schema, done, shipped, live, M, pure, then_do, ◌>>=◌,
}
use go_pool.Ledger.Payments.{
  update_payment_status, get_pending_payments, oldest_first, all_pending, has_payment, txid_used,
  update_row, mark_sent,
}
use go_pool.Master.Paid.{payout, payouts, sent_to, sum_amount, due, paid_out, sent_to-paid_out}
use go_pool.Master.Withdraw.{
  PayoutConfig, Sent, mark_all_sent, pay_recipient, pay_recipients, withdraw, total_amount,
  sent_amount, send_payment, group_payments,
}

-- On the tables of schema.sql no payment can be marked.
mark_all_sent-shipped :
    (now : ℕ) (txid : Bytes) (ps : List Payment) (t : Tables)
    → mark_all_sent now txid ps (live shipped t) ≡ (done tt, live shipped t)
unfolding mark_all_sent update_payment_status
mark_all_sent-shipped now txid [] t = refl
mark_all_sent-shipped now txid (p ∷ ps) t = mark_all_sent-shipped now txid ps t

module _ (transfer : Bytes → ℕ → Option Bytes) (cfg : PayoutConfig) where
  sent_cases :
      (now amount : ℕ) (addr : Bytes) (ps : List Payment) (t : Tables) (answer : Option Bytes)
      → (elim answer as (λ _. M (List Sent)) [
        | none ↦ pure []
        | some txid ↦ mark_all_sent now txid ps >>= λ _.
            pure (record { recipient = addr; amount = amount } ∷ [])
      ])
          (live shipped t)
        ≡ (
          done (elim answer [
            | none ↦ []
            | some _ ↦ record { recipient = addr; amount = amount } ∷ []
          ]),
          live shipped t,
        )
  sent_cases now amount addr ps t none = refl
  sent_cases now amount addr ps t (some txid) =
      ap (then_do (λ _. pure (record { recipient = addr; amount = amount } ∷ [])))
        (mark_all_sent-shipped now txid ps t)

  pay_recipient-shipped :
      (now : ℕ) (e : Bytes × List Payment) (t : Tables)
      → pay_recipient transfer cfg now e (live shipped t)
        ≡ (done (payout transfer cfg e), live shipped t)
  unfolding pay_recipient send_payment
  pay_recipient-shipped now (addr, ps) t =
      elim (Bool-cases (ltb (total_amount ps 0) cfg.min_withdrawal)) [
        | inl small ↦ rw small refl
        | inr enough ↦ rw enough (
            sent_cases now (sent_amount cfg (total_amount ps 0)) addr ps t
              (transfer addr (sent_amount cfg (total_amount ps 0))))
      ]

  pay_recipients-shipped :
      (now : ℕ) (m : Assoc Bytes (List Payment)) (t : Tables)
      → pay_recipients transfer cfg now m (live shipped t)
        ≡ (done (payouts transfer cfg m), live shipped t)
  unfolding pay_recipients
  pay_recipients-shipped now [] t = refl
  pay_recipients-shipped now (e ∷ m) t =
      ap (then_do (λ xs. pay_recipients transfer cfg now m >>= λ ys. pure (xs ++ ys)))
        (pay_recipient-shipped now e t)
      ∙ ap (then_do (λ ys. pure (payout transfer cfg e ++ ys))) (pay_recipients-shipped now m t)

  -- On the tables of schema.sql, where no statement can mark a payment, a withdrawal sends each
  -- recipient whose pending payments reach the minimum one transfer of their sum less the fee, if the
  -- wallet accepts, and nobody else anything, and no table changes: so the next withdrawal sends it
  -- again. The pending payments sum up below 2^64, and the minimum is positive and no lower than the
  -- fee.
  pub withdraw_repeats :
      (now : ℕ) (t : Tables)
      → sum_amount (all_pending t.payments) < 2 ^ 64
      → 0 < cfg.min_withdrawal
      → cfg.withdrawal_fee ≤ cfg.min_withdrawal
      → (transfers : List Sent) × (withdraw transfer cfg now (live shipped t)
          ≡ (done transfers, live shipped t))
        × ((addr : Bytes)
            → sent_to addr transfers
              ≡ paid_out transfer cfg addr (due addr (all_pending t.payments)))
  unfolding withdraw get_pending_payments
  withdraw_repeats now t small low fee =
      let groups : Assoc Bytes (List Payment) =
        group_payments (oldest_first (all_pending t.payments)) [] in
      (
        payouts transfer cfg groups,
        pay_recipients-shipped now groups t,
        λ addr. sent_to-paid_out transfer cfg addr (all_pending t.payments) small low fee,
      )

has_payment-update_row :
    (now id j : ℕ) (txid : Bytes) (ps : List Payment)
    → has_payment j (update_row (mark_sent now txid) id ps) ≡ has_payment j ps
has_payment-update_row now id j txid [] = refl
has_payment-update_row now id j txid (p ∷ ps) =
    ground (arith, has_payment-update_row now id j txid ps)

txid_used-update_row :
    (now id j : ℕ) (txid : Bytes) (ps : List Payment)
    → j ≢ id
    → has_payment id ps ≡ true
    → txid_used j txid (update_row (mark_sent now txid) id ps) ≡ true
txid_used-update_row now id j txid [] h k = ground arith
txid_used-update_row now id j txid (p ∷ ps) h k =
    ground (arith, bytes_eq_refl txid, txid_used-update_row now id j txid ps)

update_refused :
    (now : ℕ) (txid : Bytes) (p : Payment) (s : Schema) (t : Tables)
    → s.payment_updated_at ≡ true
    → has_payment p.id t.payments ≡ true
    → txid_used p.id txid t.payments ≡ true
    → update_payment_status now p.id sent (some txid) (live s t) ≡ (done none, live s t)
unfolding update_payment_status
update_refused now txid p s t h there used = rw (h, there, used) refl

update_stored :
    (now : ℕ) (txid : Bytes) (p : Payment) (s : Schema) (t : Tables)
    → s.payment_updated_at ≡ true
    → has_payment p.id t.payments ≡ true
    → txid_used p.id txid t.payments ≡ false
    → update_payment_status now p.id sent (some txid) (live s t) ≡ (
      done (some tt),
      live s (record t { payments = update_row (mark_sent now txid) p.id t.payments }),
    )
unfolding update_payment_status
update_stored now txid p s t h there fresh = rw (h, there, fresh) refl

-- The payments that follow the first one of a recipient.
abbrev pub IsOther : Tables → Payment → Payment → Type 0
IsOther t p q = (q.id ≢ p.id) × (has_payment q.id t.payments ≡ true)

others_refused :
    (now : ℕ) (txid : Bytes) (p : Payment) (qs : List Payment) (s : Schema) (t : Tables)
    → s.payment_updated_at ≡ true
    → has_payment p.id t.payments ≡ true
    → All (IsOther t p) qs
    → mark_all_sent now txid qs
        (live s (record t { payments = update_row (mark_sent now txid) p.id t.payments }))
      ≡ (done tt, live s (record t { payments = update_row (mark_sent now txid) p.id t.payments }))
unfolding mark_all_sent
others_refused now txid p [] s t h there others = refl
others_refused now txid p (q ∷ qs) s t h there others =
    let t' : Tables = record t { payments = update_row (mark_sent now txid) p.id t.payments } in
    ap (then_do (λ _. mark_all_sent now txid qs)) (
      update_refused now txid q s t' h
        (has_payment-update_row now p.id q.id txid t.payments ∙ others.0.1)
        (txid_used-update_row now p.id q.id txid t.payments others.0.0 there))
    ∙ others_refused now txid p qs s t h there others.1

-- Where payments can be marked, and the transaction is new, its uniqueness lets only the first of a
-- recipient's payments be marked as sent: the others, which the wallet has paid too, stay as they
-- were.
pub mark_all_sent_first :
    (now : ℕ) (txid : Bytes) (p : Payment) (qs : List Payment) (s : Schema) (t : Tables)
    → s.payment_updated_at ≡ true
    → has_payment p.id t.payments ≡ true
    → txid_used p.id txid t.payments ≡ false
    → All (IsOther t p) qs
    → mark_all_sent now txid (p ∷ qs) (live s t)
      ≡ (done tt, live s (record t { payments = update_row (mark_sent now txid) p.id t.payments }))
unfolding mark_all_sent
mark_all_sent_first now txid p qs s t h there fresh others =
    ap (then_do (λ _. mark_all_sent now txid qs)) (update_stored now txid p s t h there fresh)
    ∙ others_refused now txid p qs s t h there others
