-- ===== src/Ledger/Payments.antt =====
-- ledger.go: the calls on payments.
use go_pool.Base.{
  ℕ, ◌+◌, Bool, true, false, ◌&&◌, ◌||◌, List, [], ◌∷◌, ◌++◌, Option, none, some, leb, ◌==◌,
  if◌then◌else◌,
}
use go_pool.Base.Bytes.{Bytes, bytes_eq}
use go_pool.Ledger.Store.{
  Payment, PaymentStatus, pending, sent, confirmed, failed, Tables, M, exec, fits,
}
use go_pool.Ledger.Blocks.{has_block}

-- The block of a payment, if it has one, is a found block.
abbrev pub block_fits : Option ℕ → Tables → Bool
block_fits none t = true
block_fits (some height) t = has_block height t.blocks_found

-- `INSERT INTO payments`: the id is the next one.
unfoldable pub create_payment : Payment → M (Option (Unit {0}))
unfolding exec
create_payment p = exec λ s t.
    if fits p.amount && (fits p.fee && block_fits p.block_height t)
    then some (
      tt,
      record t {
        payments =
            t.payments
            ++ (record p {
              id = t.next_payment;
              tx_id = none;
              sent_at = none;
              confirmed_at = none;
              updated_at = none;
            }
                ∷ []);
        next_payment = t.next_payment + 1;
      },
    )
    else none

abbrev pub is_pending : PaymentStatus → Bool
is_pending pending = true
is_pending sent = false
is_pending confirmed = false
is_pending failed = false

abbrev pub all_pending : List Payment → List Payment
all_pending [] = []
all_pending (p ∷ ps) = if is_pending p.status then p ∷ all_pending ps else all_pending ps

-- `ORDER BY created_at ASC`, with equal times in the order of insertion.
unfoldable pub place_payment : Payment → List Payment → List Payment
place_payment x [] = x ∷ []
place_payment x (y ∷ ys) =
    if leb x.created_at y.created_at then x ∷ (y ∷ ys) else y ∷ place_payment x ys

unfoldable pub oldest_first : List Payment → List Payment
oldest_first [] = []
oldest_first (x ∷ xs) = place_payment x (oldest_first xs)

unfoldable pub get_pending_payments : M (Option (List Payment))
unfolding exec
get_pending_payments = exec λ s t. some (oldest_first (all_pending t.payments), t)

abbrev pub same_txid : Option Bytes → Bytes → Bool
same_txid none txid = false
same_txid (some x) txid = bytes_eq x txid

-- `txid TEXT UNIQUE`: another row has this transaction.
abbrev pub txid_used : ℕ → Bytes → List Payment → Bool
txid_used id txid [] = false
txid_used id txid (p ∷ ps) =
    ((if p.id == id then false else true) && same_txid p.tx_id txid) || txid_used id txid ps

abbrev pub has_payment : ℕ → List Payment → Bool
has_payment id [] = false
has_payment id (p ∷ ps) = (p.id == id) || has_payment id ps

abbrev pub update_row : (Payment → Payment) → ℕ → List Payment → List Payment
update_row f id [] = []
update_row f id (p ∷ ps) = (if p.id == id then f p else p) ∷ update_row f id ps

abbrev pub mark_sent : ℕ → Bytes → Payment → Payment
mark_sent now txid p = record p {
  status = sent;
  tx_id = some txid;
  sent_at = some now;
  updated_at = some now;
}

-- What the three UPDATE statements set.
abbrev pub updated : ℕ → PaymentStatus → Option Bytes → Payment → Payment
updated now sent (some txid) p = mark_sent now txid p
updated now confirmed txid p = record p {
  status = confirmed;
  confirmed_at = some now;
  updated_at = some now;
}
updated now status txid p = record p { status = status; updated_at = some now }

-- Whether the statement that is run sets a txid that another row has.
abbrev pub conflicts : ℕ → PaymentStatus → Option Bytes → List Payment → Bool
conflicts id sent (some txid) ps = has_payment id ps && txid_used id txid ps
conflicts id status txid ps = false

-- Every one of the three statements names the column `updated_at`, so without it all fail.
unfoldable pub update_payment_status : ℕ → ℕ → PaymentStatus → Option Bytes → M (Option (Unit {0}))
unfolding exec
update_payment_status now id status txid = exec λ s t.
    if s.payment_updated_at
    then (if conflicts id status txid t.payments
        then none
        else some (tt, record t { payments = update_row (updated now status txid) id t.payments }))
    else none
