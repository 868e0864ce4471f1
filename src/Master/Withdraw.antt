-- ===== src/Master/Withdraw.antt =====
-- cmd/master/withdraw.go: the payments to the miners. The wallet is not part of the repository: its
-- transfer is a function of the recipient and the amount, which gives the transaction or an error.
use go_pool.Base.{
  ℕ, ◌+◌, ◌-◌, ◌%◌, ◌^◌, List, [], ◌∷◌, ◌++◌, Option, none, some, ltb, if◌then◌else◌,
}
use go_pool.Base.Bytes.{Bytes}
use go_pool.Base.Assoc.{Assoc, lookup, insert, bytes_keys}
use go_pool.Ledger.Store.{Payment, PaymentStatus, done, M, pure, ◌>>=◌}
use go_pool.Ledger.Payments.{get_pending_payments, update_payment_status}

-- The two amounts of the configuration, in atomic units.
pub record PayoutConfig : Type 0 where
  pub min_withdrawal : ℕ
  pub withdrawal_fee : ℕ

-- One transfer of money: to whom, and how much.
pub record Sent : Type 0 where
  pub recipient : Bytes
  pub amount : ℕ

abbrev pub or_nil : Option (List Payment) → List Payment
or_nil none = []
or_nil (some ps) = ps

-- `recipientPayments`
unfoldable pub group_payments :
    List Payment → Assoc Bytes (List Payment) → Assoc Bytes (List Payment)
group_payments [] m = m
group_payments (p ∷ ps) m =
    group_payments ps (insert p.recipient_addr (or_nil (lookup p.recipient_addr m) ++ (p ∷ [])) m)

-- `totalAmount += payment.Amount`, a uint64.
unfoldable pub total_amount : List Payment → ℕ → ℕ
total_amount [] total = total
total_amount (p ∷ ps) total = total_amount ps ((total + p.amount) % 2 ^ 64)

-- `amount - withdrawalFee`, a uint64.
unfoldable pub sent_amount : PayoutConfig → ℕ → ℕ
sent_amount cfg amount = (amount + 2 ^ 64 - cfg.withdrawal_fee) % 2 ^ 64

-- The loop that marks the payments of one recipient; an error is logged, and the loop goes on.
unfoldable pub mark_all_sent : ℕ → Bytes → List Payment → M (Unit {0})
mark_all_sent now txid [] db = (done tt, db)
mark_all_sent now txid (p ∷ ps) db =
    (update_payment_status now p.id PaymentStatus.sent (some txid) >>= λ _.
    mark_all_sent now txid ps)
      db

module _ (transfer : Bytes → ℕ → Option Bytes) (cfg : PayoutConfig) where
  -- `sendPayment`
  unfoldable pub send_payment : Bytes → ℕ → Option Bytes
  send_payment address amount = transfer address (sent_amount cfg amount)

  -- One round of the loop over the recipients: what the wallet sent.
  unfoldable pub pay_recipient : ℕ → Bytes × List Payment → M (List Sent)
  pay_recipient now (addr, payments) =
      let total = total_amount payments 0 in
      let pay : M (List Sent) = elim (send_payment addr total) [
        | none ↦ pure []
        | some txid ↦ mark_all_sent now txid payments >>= λ _.
            pure (record { recipient = addr; amount = sent_amount cfg total } ∷ [])
      ] in
      if ltb total cfg.min_withdrawal then pure [] else pay

  unfoldable pub pay_recipients : ℕ → Assoc Bytes (List Payment) → M (List Sent)
  pay_recipients now [] db = (done [], db)
  pay_recipients now (e ∷ m) db =
      (pay_recipient now e >>= λ xs. pay_recipients now m >>= λ ys. pure (xs ++ ys)) db

  abbrev pay_pending : ℕ → Option (List Payment) → M (List Sent)
  pay_pending now none = pure []
  pay_pending now (some payments) = pay_recipients now (group_payments payments [])

  -- `Withdraw`, with the transfers that the wallet made.
  unfoldable pub withdraw : ℕ → M (List Sent)
  withdraw now = get_pending_payments >>= pay_pending now
