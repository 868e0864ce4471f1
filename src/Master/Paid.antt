-- ===== src/Master/Paid.antt =====
-- cmd/master/withdraw.go: what each recipient is sent, by the sum of the pending payments.
use go_pool.Base.{
  ℕ, ◌+◌, ◌-◌, ◌%◌, ◌^◌, ◌≤◌, ◌<◌, ◌≡◌, refl, ap, ◌∙◌, subst, true, List, [], ◌∷◌, ◌++◌, Option,
  none, some, ltb, leb, if◌then◌else◌, Bool-cases, Option-cases, inl, inr, append-nil, arith,
}
use go_pool.Base.Bytes.{Bytes, bytes_eq, bytes_eq_iff}
use go_pool.Base.Assoc.{Assoc, lookup, IsMap, bytes_keys}
use go_pool.Ledger.Store.{Payment}
use go_pool.Ledger.Payments.{oldest_first, place_payment}
use go_pool.Master.Payees.{payments_to, entry, lookup-group_payments, IsMap-group_payments}
use go_pool.Master.Withdraw.{PayoutConfig, Sent, total_amount, sent_amount, group_payments}

-- What the wallet sends to a group of payments.
abbrev pub payout : (Bytes → ℕ → Option Bytes) → PayoutConfig → Bytes × List Payment → List Sent
payout transfer cfg (addr, ps) =
    let amount = sent_amount cfg (total_amount ps 0) in
    if ltb (total_amount ps 0) cfg.min_withdrawal then [] else elim (transfer addr amount) [
      | none ↦ []
      | some _ ↦ record { recipient = addr; amount = amount } ∷ []
    ]

abbrev pub payouts :
    (Bytes → ℕ → Option Bytes) → PayoutConfig → Assoc Bytes (List Payment) → List Sent
payouts transfer cfg [] = []
payouts transfer cfg (e ∷ m) = payout transfer cfg e ++ payouts transfer cfg m

-- The transfers to a recipient.
abbrev pub sent_to : Bytes → List Sent → List Sent
sent_to addr [] = []
sent_to addr (x ∷ xs) =
    let rest = sent_to addr xs in if bytes_eq x.recipient addr then x ∷ rest else rest

-- The sum of all amounts, and of those for a recipient.
abbrev pub sum_amount : List Payment → ℕ
sum_amount [] = 0
sum_amount (p ∷ ps) = p.amount + sum_amount ps

abbrev pub due : Bytes → List Payment → ℕ
due addr ps = sum_amount (payments_to addr ps)

-- The transfer of an amount less the fee, if the amount reaches the minimum and the wallet accepts.
abbrev pub paid_out : (Bytes → ℕ → Option Bytes) → PayoutConfig → Bytes → ℕ → List Sent
paid_out transfer cfg addr amount =
    if ltb amount cfg.min_withdrawal
    then []
    else elim (transfer addr (amount - cfg.withdrawal_fee)) [
      | none ↦ []
      | some _ ↦ record { recipient = addr; amount = amount - cfg.withdrawal_fee } ∷ []
    ]

due_below : (addr : Bytes) (ps : List Payment) → due addr ps ≤ sum_amount ps
due_below addr [] = omega arith
due_below addr (p ∷ ps) = elim (Bool-cases (bytes_eq p.recipient_addr addr)) [
  | inl own ↦ rw own (omega (arith, due_below addr ps))
  | inr other ↦ rw other (omega (arith, due_below addr ps))
]

due-place_payment :
    (addr : Bytes) (p : Payment) (ps : List Payment)
    → due addr (place_payment p ps) ≡ due addr (p ∷ ps)
unfolding place_payment
due-place_payment addr p [] = refl
due-place_payment addr p (q ∷ ps) = elim (Bool-cases (leb p.created_at q.created_at)) [
  | inl front ↦ rw front refl
  | inr back ↦
      let rest = due-place_payment addr p ps in
      elim (Bool-cases (bytes_eq p.recipient_addr addr)) [
        | inl own ↦
            let rest' : due addr (place_payment p ps) ≡ p.amount + due addr ps =
              rest ∙ rw own refl in
            elim (Bool-cases (bytes_eq q.recipient_addr addr)) [
              | inl own' ↦ rw (back, own, own') (omega (arith, rest'))
              | inr other' ↦ rw (back, own, other') rest'
            ]
        | inr other ↦
            let rest' : due addr (place_payment p ps) ≡ due addr ps = rest ∙ rw other refl in
            elim (Bool-cases (bytes_eq q.recipient_addr addr)) [
              | inl own' ↦ rw (back, other, own') (omega (arith, rest'))
              | inr other' ↦ rw (back, other, other') rest'
            ]
      ]
]

due-oldest_first : (addr : Bytes) (ps : List Payment) → due addr (oldest_first ps) ≡ due addr ps
unfolding oldest_first
due-oldest_first addr [] = refl
due-oldest_first addr (p ∷ ps) =
    due-place_payment addr p (oldest_first ps)
    ∙ elim (Bool-cases (bytes_eq p.recipient_addr addr))
        as (λ _. due addr (p ∷ oldest_first ps) ≡ due addr (p ∷ ps)) [
          | inl own ↦ rw own (ap (λ n. p.amount + n) (due-oldest_first addr ps))
          | inr other ↦ rw other (due-oldest_first addr ps)
        ]

total_amount-sum_amount :
    (ps : List Payment) (total : ℕ)
    → total + sum_amount ps < 2 ^ 64
    → total_amount ps total ≡ total + sum_amount ps
unfolding total_amount
total_amount-sum_amount [] total h = omega arith
total_amount-sum_amount (p ∷ ps) total h =
    let small : (total + p.amount) % 2 ^ 64 ≡ total + p.amount = omega arith in
    rw small (omega (arith, total_amount-sum_amount ps (total + p.amount)))

sent_to-append :
    (addr : Bytes) (xs ys : List Sent)
    → sent_to addr (xs ++ ys) ≡ sent_to addr xs ++ sent_to addr ys
sent_to-append addr [] ys = refl
sent_to-append addr (x ∷ xs) ys = elim (Bool-cases (bytes_eq x.recipient addr)) [
  | inl own ↦ rw own (ap (λ l. x ∷ l) (sent_to-append addr xs ys))
  | inr other ↦ rw other (sent_to-append addr xs ys)
]

module _ (transfer : Bytes → ℕ → Option Bytes) (cfg : PayoutConfig) where
  sent_to-payout :
      (addr k : Bytes) (ps : List Payment)
      → sent_to addr (payout transfer cfg (k, ps))
        ≡ (if bytes_eq k addr then payout transfer cfg (k, ps) else [])
  sent_to-payout addr k ps = elim (Bool-cases (ltb (total_amount ps 0) cfg.min_withdrawal)) [
    | inl small ↦ elim (Bool-cases (bytes_eq k addr)) [
      | inl own ↦ rw (small, own) refl
      | inr other ↦ rw (small, other) refl
    ]
    | inr enough ↦ elim (Option-cases (transfer k (sent_amount cfg (total_amount ps 0)))) [
      | inl none_ ↦ elim (Bool-cases (bytes_eq k addr)) [
        | inl own ↦ rw (enough, none_, own) refl
        | inr other ↦ rw (enough, none_, other) refl
      ]
      | inr (txid, some_) ↦ elim (Bool-cases (bytes_eq k addr)) [
        | inl own ↦ rw (enough, some_, own) refl
        | inr other ↦ rw (enough, some_, other) refl
      ]
    ]
  ]

  abbrev of_entry : Bytes → Option (List Payment) → List Sent
  of_entry addr none = []
  of_entry addr (some ps) = payout transfer cfg (addr, ps)

  sent_to-payouts :
      (addr : Bytes) (m : Assoc Bytes (List Payment))
      → IsMap m
      → sent_to addr (payouts transfer cfg m) ≡ of_entry addr (lookup addr m)
  sent_to-payouts addr [] h = refl
  sent_to-payouts addr ((k, ps) ∷ m) h =
      sent_to-append addr (payout transfer cfg (k, ps)) (payouts transfer cfg m)
      ∙ ap (λ l. l ++ sent_to addr (payouts transfer cfg m)) (sent_to-payout addr k ps)
      ∙ elim (Bool-cases (bytes_eq k addr))
          as (λ _.
            (if bytes_eq k addr then payout transfer cfg (k, ps) else [])
              ++ sent_to addr (payouts transfer cfg m)
            ≡ of_entry addr (lookup addr ((k, ps) ∷ m))) [
              | inl own ↦
                  let e : k ≡ addr = (bytes_eq_iff k addr).0 own in
                  let rest : sent_to addr (payouts transfer cfg m) ≡ [] =
                    sent_to-payouts addr m h.1
                    ∙ ap (of_entry addr) (subst (λ j. lookup j m ≡ none) e h.0) in
                  rw (own, rest)
                    (append-nil (payout transfer cfg (k, ps))
                      ∙ ap (λ a. payout transfer cfg (a, ps)) e)
              | inr other ↦ rw other (sent_to-payouts addr m h.1)
            ]

  payout-paid_out :
      (addr : Bytes) (ps : List Payment)
      → sum_amount ps < 2 ^ 64
      → cfg.withdrawal_fee ≤ cfg.min_withdrawal
      → payout transfer cfg (addr, ps) ≡ paid_out transfer cfg addr (sum_amount ps)
  unfolding sent_amount
  payout-paid_out addr ps h fee =
      let total : total_amount ps 0 ≡ sum_amount ps =
        omega (arith, total_amount-sum_amount ps 0, h) in
      let send : ℕ → List Sent = λ amount. elim (transfer addr amount) as (λ _. List Sent) [
        | none ↦ []
        | some _ ↦ record { recipient = addr; amount = amount } ∷ []
      ] in
      ap (λ n. if ltb n cfg.min_withdrawal then [] else send (sent_amount cfg n)) total
      ∙ elim (Bool-cases (ltb (sum_amount ps) cfg.min_withdrawal))
          as (λ _.
            (if ltb (sum_amount ps) cfg.min_withdrawal
              then []
              else send (sent_amount cfg (sum_amount ps)))
            ≡ paid_out transfer cfg addr (sum_amount ps)) [
              | inl small ↦ rw small refl
              | inr enough ↦
                  let reached : cfg.min_withdrawal ≤ sum_amount ps = ground (arith, enough) in
                  let plain : sent_amount cfg (sum_amount ps) ≡ sum_amount ps - cfg.withdrawal_fee =
                    omega (arith, reached, h, fee) in
                  rw enough (ap send plain)
            ]

  of_entry-paid_out :
      (addr : Bytes) (ps : List Payment)
      → sum_amount ps < 2 ^ 64
      → 0 < cfg.min_withdrawal
      → cfg.withdrawal_fee ≤ cfg.min_withdrawal
      → of_entry addr (entry ps) ≡ paid_out transfer cfg addr (sum_amount ps)
  of_entry-paid_out addr [] h low fee =
      let small : ltb 0 cfg.min_withdrawal ≡ true = ground (arith, low) in rw small refl
  of_entry-paid_out addr (p ∷ ps) h low fee = payout-paid_out addr (p ∷ ps) h fee

  -- The transfers of a withdrawal to a recipient.
  pub sent_to-paid_out :
      (addr : Bytes) (ps : List Payment)
      → sum_amount ps < 2 ^ 64
      → 0 < cfg.min_withdrawal
      → cfg.withdrawal_fee ≤ cfg.min_withdrawal
      → sent_to addr (payouts transfer cfg (group_payments (oldest_first ps) []))
        ≡ paid_out transfer cfg addr (due addr ps)
  sent_to-paid_out addr ps h low fee =
      let same : due addr (oldest_first ps) ≡ due addr ps = due-oldest_first addr ps in
      let small : due addr (oldest_first ps) < 2 ^ 64 = omega (arith, same, due_below addr ps, h) in
      sent_to-payouts addr (group_payments (oldest_first ps) [])
        (IsMap-group_payments (oldest_first ps) [] tt)
      ∙ ap (of_entry addr) (lookup-group_payments addr (oldest_first ps) [] [] refl)
      ∙ of_entry-paid_out addr (payments_to addr (oldest_first ps)) small low fee
      ∙ ap (paid_out transfer cfg addr) same
