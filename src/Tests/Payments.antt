-- ===== src/Tests/Payments.antt =====
-- The payments of a withdrawal, on small inputs.
use go_pool.Base.{ℕ, ◌≡◌, refl, arith, List, [], ◌∷◌, Option, none, some}
use go_pool.Base.Bytes.{Bytes}
use go_pool.Base.Assoc.{bytes_keys}
use go_pool.Ledger.Store.{Payment, PaymentStatus, Tables, done, live, shipped, exec}
use go_pool.Ledger.Payments.{
  oldest_first, place_payment, all_pending, get_pending_payments, update_payment_status,
}
use go_pool.Master.Withdraw.{
  PayoutConfig, Sent, withdraw, group_payments, total_amount, sent_amount, pay_recipients,
  pay_recipient, send_payment, mark_all_sent,
}
use go_pool.Master.Paid.{sent_to, paid_out, due}
use go_pool.Master.Repeat.{withdraw_repeats}
use go_pool.Tests.Blocks.{wallet, rig, empty_tables}

abbrev payment_of : ℕ → Payment
payment_of id = record {
  id = id;
  block_height = some 100;
  recipient_addr = wallet;
  amount = 500;
  fee = 0;
  tx_id = none;
  status = PaymentStatus.pending;
  created_at = id;
  sent_at = none;
  confirmed_at = none;
  updated_at = none;
}

abbrev with_payments : Tables
with_payments = record empty_tables { payments = payment_of 1 ∷ payment_of 2 ∷ [] }

abbrev wallet_rpc : Bytes → ℕ → Option Bytes
wallet_rpc _ _ = some rig

abbrev payout_cfg : PayoutConfig
payout_cfg = record { min_withdrawal = 800; withdrawal_fee = 10 }

withdraw_repeats_example :
    (transfers : List Sent) × (withdraw wallet_rpc payout_cfg 5 (live shipped with_payments)
      ≡ (done transfers, live shipped with_payments))
    × ((addr : Bytes)
        → sent_to addr transfers
          ≡ paid_out wallet_rpc payout_cfg addr (due addr (all_pending with_payments.payments)))
withdraw_repeats_example =
    withdraw_repeats wallet_rpc payout_cfg 5 with_payments (omega arith) (omega arith) (omega arith)

withdrawal_runs :
    withdraw wallet_rpc payout_cfg 5 (live shipped with_payments)
    ≡ (done (record { recipient = wallet; amount = 990 } ∷ []), live shipped with_payments)
unfolding oldest_first group_payments place_payment total_amount sent_amount withdraw pay_recipients
    pay_recipient send_payment mark_all_sent update_payment_status get_pending_payments exec
withdrawal_runs = refl
