-- ===== src/Master/Settled.antt =====
-- What `processTransfer` does with a block where the window of six hours has no share.
use go_pool.Base.{
  ℕ, ◌-◌, ◌^◌, ◌<◌, ◌≡◌, refl, ap, ◌∙◌, true, false, List, [], Option, some, if◌then◌else◌,
}
use go_pool.Base.Bytes.{Bytes}
use go_pool.Float.{Float}
use go_pool.Ledger.Store.{
  Distribution, Tables, Schema, done, live, then_do, M, pure, ◌>>=◌, with_transaction,
}
use go_pool.Ledger.Blocks.{
  is_block_processed, create_block, mark_block_processed, clashes, has_final,
}
use go_pool.Ledger.Marks.{mark_block_processed_final, create_block_found}
use go_pool.Ledger.Shares.{get_shares_in_window, newest_first, since}
use go_pool.Master.Transfers.{
  TransferInfo, create_distributions, create_payments, queue_payments, process_transfer,
  distributions_of, calculate_distributions, or_fail, block_of,
}
use go_pool.Master.Deadlock.{is_block_processed_new}

queue_nothing :
    (s : Schema) (t : Tables) (now : ℕ) (transfer : TransferInfo)
    → with_transaction (queue_payments now transfer []) (live s t) ≡ (done (some tt), live s t)
unfolding with_transaction queue_payments create_distributions create_payments
queue_nothing s t now transfer = refl

module _ (fl : Float) (fee_address : Bytes) (fee_percent : fl.F) where
  no_distributions :
      (s : Schema) (t : Tables) (now : ℕ) (transfer : TransferInfo)
      → newest_first (since (now - 21600) t.shares) ≡ []
      → calculate_distributions fl fee_address fee_percent now transfer (live s t)
        ≡ (done (some []), live s t)
  unfolding calculate_distributions get_shares_in_window distributions_of
  no_distributions s t now transfer h =
      ap (λ l. (done (some (distributions_of fl fee_address fee_percent now transfer l)), live s t))
        h

  settled_again :
      (s : Schema) (t : Tables) (now : ℕ) (transfer : TransferInfo)
      → is_block_processed transfer.height (live s t) ≡ (done (some true), live s t)
      → process_transfer fl fee_address fee_percent now transfer (live s t)
        ≡ (done (some tt), live s t)
  unfolding process_transfer
  settled_again s t now transfer h = ap (then_do (or_fail _)) h

  -- On a database that fails no call, a new block with no share in the six hours before is settled
  -- without a payment, and for good: when the transfer is processed again, whatever the time,
  -- nothing changes. Its height, hash and reward can be stored.
  pub process_transfer_unshared :
      (s : Schema) (t : Tables) (now later : ℕ) (transfer : TransferInfo)
      → transfer.height < 2 ^ 63
      → transfer.amount < 2 ^ 63
      → has_final transfer.height t.blocks_found ≡ false
      → clashes transfer.height transfer.tx_id t.blocks_found ≡ false
      → newest_first (since (now - 21600) t.shares) ≡ []
      → (t' : Tables) × (process_transfer fl fee_address fee_percent now transfer (live s t)
          ≡ (done (some tt), live s t'))
        × (t'.payments ≡ t.payments)
        × (process_transfer fl fee_address fee_percent later transfer (live s t')
            ≡ (done (some tt), live s t'))
  unfolding process_transfer
  process_transfer_unshared s t now later transfer h k new fresh no_share =
      let (t1, stored, found, same_payments, same_shares) =
        create_block_found (block_of now transfer) s t h k fresh in
      let (t2, marked, settled, same) =
        mark_block_processed_final now transfer.height s t1 h found in
      let mark : M (Option (Unit {0})) = mark_block_processed now transfer.height in
      let pay : List Distribution → M (Option (Unit {0})) =
        λ ds. with_transaction (queue_payments now transfer ds) >>= or_fail (λ _. mark) in
      let calculate : M (Option (List Distribution)) =
        calculate_distributions fl fee_address fee_percent now transfer in
      let work : M (Option (Unit {0})) =
        create_block (block_of now transfer) >>= or_fail (λ _. calculate >>= or_fail pay) in
      (
        t2,
        ap (then_do (or_fail (λ processed. if processed then pure (some tt) else work)))
              (is_block_processed_new s t transfer.height h new)
            ∙ ap (then_do (or_fail (λ _. calculate >>= or_fail pay))) stored
            ∙ ap (then_do (or_fail pay)) (
                no_distributions s t1 now transfer
                  (ap (λ l. newest_first (since (now - 21600) l)) same_shares ∙ no_share))
            ∙ ap (then_do (or_fail (λ _. mark))) (queue_nothing s t1 now transfer)
            ∙ marked,
        same ∙ same_payments,
        settled_again s t2 later transfer settled,
      )
