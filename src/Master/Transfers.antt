-- ===== src/Master/Transfers.antt =====
-- cmd/master/updater.go: the transfers to the pool, and the distributions and payments that they lead
-- to. The wallet and the daemon are not part of the repository: a call of them is its answer.
use go_pool.Base.{
  ℕ, ◌+◌, ◌-◌, ◌%◌, ◌^◌, true, false, List, [], ◌∷◌, ◌++◌, Option, none, some, leb, if◌then◌else◌,
}
use go_pool.Base.Bytes.{Bytes}
use go_pool.Base.Assoc.{Assoc}
use go_pool.Float.{Float}
use go_pool.Ledger.Store.{
  Share, Distribution, Payment, PaymentStatus, BlockFound, BlockStatus, done, M, pure,
  with_transaction, ◌>>=◌,
}
use go_pool.Ledger.Shares.{get_shares_in_window}
use go_pool.Ledger.Blocks.{
  get_blockchain_info, update_blockchain_info, is_transfer_processed, mark_transfer_processed,
  is_block_processed, create_block, mark_block_processed, get_last_processed_height,
  update_last_processed_height,
}
use go_pool.Ledger.Payments.{create_payment}
use go_pool.Ledger.Balances.{create_distribution}
use go_pool.Master.Pplns.{miner_diffs, sum_diff}

-- The fields of the wallet's `TransferInfo` that are read.
pub record TransferInfo : Type 0 where
  pub tx_id : Bytes
  pub height : ℕ
  pub amount : ℕ
  pub timestamp : ℕ

-- `initTransferTracking`: the first height that is asked for.
unfoldable pub init_transfer_tracking : M ℕ
init_transfer_tracking = get_last_processed_height >>= λ r.
    pure (elim r [ none ↦ 0 | some last_height ↦ (last_height + 1) % 2 ^ 64 ])

-- A next call, where the last one had no error; an error is the result of all.
abbrev pub or_fail : {A B : Type 0} → (A → M (Option B)) → Option A → M (Option B)
or_fail f none = pure none
or_fail f (some a) = f a

-- The stable sort by ascending height.
unfoldable pub place_transfer : TransferInfo → List TransferInfo → List TransferInfo
place_transfer x [] = x ∷ []
place_transfer x (y ∷ ys) = if leb x.height y.height then x ∷ (y ∷ ys) else y ∷ place_transfer x ys

unfoldable pub sort_transfers : List TransferInfo → List TransferInfo
sort_transfers [] = []
sort_transfers (x ∷ xs) = place_transfer x (sort_transfers xs)

abbrev pub highest : ℕ → List TransferInfo → ℕ
highest h [] = h
highest h (x ∷ xs) = highest x.height xs

unfoldable pub create_distributions : List Distribution → M (Option (Unit {0}))
create_distributions [] db = (done (some tt), db)
create_distributions (d ∷ ds) db =
    (create_distribution d >>= or_fail (λ _. create_distributions ds)) db

-- A payment of a distribution; its id is set when it is stored.
abbrev pub payment_for : ℕ → TransferInfo → Distribution → Payment
payment_for now transfer d = record {
  id = 0;
  block_height = some transfer.height;
  recipient_addr = d.miner_addr;
  amount = d.reward_net;
  fee = 0;
  tx_id = none;
  status = PaymentStatus.pending;
  created_at = now;
  sent_at = none;
  confirmed_at = none;
  updated_at = none;
}

unfoldable pub create_payments : ℕ → TransferInfo → List Distribution → M (Option (Unit {0}))
create_payments now transfer [] db = (done (some tt), db)
create_payments now transfer (d ∷ ds) db =
    (create_payment (payment_for now transfer d) >>= or_fail (λ _. create_payments now transfer ds))
      db

-- What the transaction of `processTransfer` runs.
unfoldable pub queue_payments : ℕ → TransferInfo → List Distribution → M (Option (Unit {0}))
queue_payments now transfer ds =
    create_distributions ds >>= or_fail (λ _. create_payments now transfer ds)

abbrev pub block_of : ℕ → TransferInfo → BlockFound
block_of now transfer = record {
  height = transfer.height;
  hash = transfer.tx_id;
  reward_total = transfer.amount;
  timestamp = transfer.timestamp;
  found_at = now;
  processed_at = none;
  status = BlockStatus.processing;
}

-- `UpdateReward`, with the daemon's answer.
unfoldable pub update_reward : Option ℕ → M (Unit {0})
update_reward none = pure tt
update_reward (some reward) = get_blockchain_info >>= λ r. elim r [
  | none ↦ pure tt
  | some info ↦ update_blockchain_info info.height reward info.difficulty >>= λ _. pure tt
]

-- The count of unprocessed transfers, which only the log reads: its calls may fail.
unfoldable pub count_rounds : List TransferInfo → M (Unit {0})
count_rounds [] db = (done tt, db)
count_rounds (vt ∷ vts) db = (is_transfer_processed vt.tx_id >>= λ _. count_rounds vts) db

module _ (fl : Float) (fee_address : Bytes) (fee_percent : fl.F) where
  open fl use {F, of_nat, to_nat, add, sub, mul, div}

  -- `x * (100 - feePercent) / 100`
  abbrev after_fee : ℕ → ℕ
  after_fee x = to_nat (div (mul (of_nat x) (sub (of_nat 100) fee_percent)) (of_nat 100))

  unfoldable pub miner_distributions : ℕ → TransferInfo → ℕ → Assoc Bytes ℕ → List Distribution
  miner_distributions now transfer total [] = []
  miner_distributions now transfer total ((addr, diff) ∷ m) =
      let gross : ℕ = to_nat (mul (of_nat transfer.amount) (div (of_nat diff) (of_nat total))) in
      record {
        block_height = transfer.height;
        miner_addr = addr;
        shares_contrib = diff;
        reward_gross = gross;
        reward_net = after_fee gross;
        calculated_at = now;
      }
      ∷ miner_distributions now transfer total m

  abbrev pub fee_distribution : ℕ → TransferInfo → Distribution
  fee_distribution now transfer =
      let pool_fee : ℕ = (transfer.amount + 2 ^ 64 - after_fee transfer.amount) % 2 ^ 64 in
      record {
        block_height = transfer.height;
        miner_addr = fee_address;
        shares_contrib = 0;
        reward_gross = pool_fee;
        reward_net = pool_fee;
        calculated_at = now;
      }

  -- `calculateDistributions` behind its query.
  unfoldable pub distributions_of : ℕ → TransferInfo → List Share → List Distribution
  distributions_of now transfer [] = []
  distributions_of now transfer (x ∷ xs) =
      miner_distributions now transfer (sum_diff (x ∷ xs) 0) (miner_diffs (x ∷ xs) [])
      ++ (fee_distribution now transfer ∷ [])

  -- `calculateDistributions`: the window is the last six hours.
  unfoldable pub calculate_distributions : ℕ → TransferInfo → M (Option (List Distribution))
  calculate_distributions now transfer =
      get_shares_in_window (now - 21600)
      >>= or_fail (λ shares. pure (some (distributions_of now transfer shares)))

  -- `processTransfer`
  unfoldable pub process_transfer : ℕ → TransferInfo → M (Option (Unit {0}))
  process_transfer now transfer =
      let work : M (Option (Unit {0})) =
        create_block (block_of now transfer)
        >>= or_fail (λ _.
          calculate_distributions now transfer
          >>= or_fail (λ ds.
            with_transaction (queue_payments now transfer ds)
            >>= or_fail (λ _. mark_block_processed now transfer.height))) in
      is_block_processed transfer.height
      >>= or_fail (λ processed. if processed then pure (some tt) else work)

  abbrev raise : ℕ → ℕ → ℕ
  raise height min_height = if leb min_height height then (height + 1) % 2 ^ 64 else min_height

  -- One round of the loop of `UpdatePendingBals`: the next `minHeight`.
  unfoldable pub transfer_round : ℕ → TransferInfo → ℕ → M ℕ
  transfer_round now vt min_height = is_transfer_processed vt.tx_id >>= λ processed.
      elim processed [
        | none ↦ pure min_height
        | some true ↦ pure (raise vt.height min_height)
        | some false ↦ process_transfer now vt >>= λ r. elim r [
          | none ↦ pure min_height
          | some _ ↦ mark_transfer_processed vt.tx_id vt.height vt.amount >>= λ marked.
              pure (elim marked [ none ↦ min_height | some _ ↦ raise vt.height min_height ])
        ]
      ]

  unfoldable pub transfer_rounds : ℕ → List TransferInfo → ℕ → M ℕ
  transfer_rounds now [] min_height db = (done min_height, db)
  transfer_rounds now (vt ∷ vts) min_height db =
      (transfer_round now vt min_height >>= transfer_rounds now vts) db

  abbrev pub finish : List TransferInfo → ℕ → M ℕ
  finish [] min_height = pure min_height
  finish (vt ∷ vts) min_height =
      let top = highest vt.height vts in
      update_last_processed_height top >>= λ _. pure ((top + 1) % 2 ^ 64)

  -- The loops over the sorted transfers, and what is kept behind them.
  abbrev pub go_through : ℕ → List TransferInfo → ℕ → M ℕ
  go_through now transfers min_height =
      count_rounds transfers >>= λ _. transfer_rounds now transfers min_height >>= finish transfers

  -- `UpdatePendingBals`, with the wallet's answer to the request from `minHeight` on.
  unfoldable pub update_pending_bals : ℕ → Option (List TransferInfo) → ℕ → M ℕ
  update_pending_bals now none min_height = pure min_height
  update_pending_bals now (some answer) min_height =
      go_through now (sort_transfers answer) min_height
