-- ===== src/Master/Deadlock.antt =====
-- What becomes of a transfer that has shares to pay: `processTransfer` calls the ledger inside
-- `WithTransaction`, which holds the only connection.
use go_pool.Base.{
  ℕ, ◌-◌, ◌^◌, ◌<◌, ◌≡◌, ◌≢◌, refl, ap, ◌∙◌, Bool, true, false, List, [], ◌∷◌, ◌++◌, Option, some,
  arith, List-cases, Bool-cases, inl, inr, lt→ltb, if◌then◌else◌,
}
use go_pool.Base.Bytes.{Bytes}
use go_pool.Float.{Float}
use go_pool.Ledger.Store.{
  Share, BlockFound, Distribution, Tables, Schema, Db, done, blocked, live, then_do, M, pure, ◌>>=◌,
  with_transaction,
}
use go_pool.Ledger.Balances.{create_distribution}
use go_pool.Ledger.Blocks.{is_block_processed, create_block, has_final, clashes}
use go_pool.Ledger.Shares.{get_shares_in_window, newest_first, since}
use go_pool.Ledger.Blocks.{mark_block_processed}
use go_pool.Master.Transfers.{
  TransferInfo, create_distributions, queue_payments, process_transfer, distributions_of,
  calculate_distributions, or_fail, block_of, fee_distribution,
}

-- Any call of the ledger waits for ever while a transaction holds the connection.
create_distributions_blocked :
    (d : Distribution) (ds : List Distribution) (db : Db)
    → db.taken ≡ true
    → create_distributions (d ∷ ds) db ≡ (blocked, db)
unfolding create_distributions create_distribution
create_distributions_blocked d ds db h = rw h refl

-- A transaction that queues at least one distribution never returns.
pub with_transaction-queue_payments :
    (s : Schema) (t : Tables) (now : ℕ) (transfer : TransferInfo) (d : Distribution)
    (ds : List Distribution)
    → with_transaction (queue_payments now transfer (d ∷ ds)) (live s t)
      ≡ (blocked, record (live s t) { taken = true })
unfolding with_transaction queue_payments create_distributions create_distribution
with_transaction-queue_payments s t now transfer d ds = refl

-- The same for a list of distributions that ends with one, as with the pool's fee.
with_fee_blocked :
    (s : Schema) (t : Tables) (now : ℕ) (transfer : TransferInfo) (ds : List Distribution)
    (d : Distribution)
    → with_transaction (queue_payments now transfer (ds ++ (d ∷ []))) (live s t)
      ≡ (blocked, record (live s t) { taken = true })
with_fee_blocked s t now transfer [] d = with_transaction-queue_payments s t now transfer d []
with_fee_blocked s t now transfer (e ∷ ds) d =
    with_transaction-queue_payments s t now transfer e (ds ++ (d ∷ []))

pub is_block_processed_new :
    (s : Schema) (t : Tables) (height : ℕ)
    → height < 2 ^ 63
    → has_final height t.blocks_found ≡ false
    → is_block_processed height (live s t) ≡ (done (some false), live s t)
unfolding is_block_processed
is_block_processed_new s t height h new = ground (arith, new)

create_block_returns :
    (s : Schema) (t : Tables) (now : ℕ) (transfer : TransferInfo)
    → transfer.height < 2 ^ 63
    → transfer.amount < 2 ^ 63
    → (t' : Tables) × (create_block (block_of now transfer) (live s t)
        ≡ (done (some tt), live s t'))
      × (t'.shares ≡ t.shares)
unfolding create_block
create_block_returns s t now transfer h k =
    let row : BlockFound = block_of now transfer in
    let known : Bool = clashes transfer.height transfer.tx_id t.blocks_found in
    let t' : Tables =
      if known then t else record t { blocks_found = t.blocks_found ++ (row ∷ []) } in
    (
      t',
      rw (lt→ltb transfer.height (2 ^ 63) h, lt→ltb transfer.amount (2 ^ 63) k) refl,
      elim (Bool-cases known) [ inl e ↦ rw e refl | inr e ↦ rw e refl ],
    )

module _ (fl : Float) (fee_address : Bytes) (fee_percent : fl.F) where
  after_block :
      (s : Schema) (t : Tables) (now : ℕ) (transfer : TransferInfo) (x : Share) (xs : List Share)
      → newest_first (since (now - 21600) t.shares) ≡ x ∷ xs
      → (calculate_distributions fl fee_address fee_percent now transfer (live s t)) ≡ (
        done (some (distributions_of fl fee_address fee_percent now transfer (x ∷ xs))),
        live s t,
      )
  unfolding calculate_distributions get_shares_in_window
  after_block s t now transfer x xs h =
      ap (λ l. (done (some (distributions_of fl fee_address fee_percent now transfer l)), live s t))
        h

  fees_blocked :
      (s : Schema) (t : Tables) (now : ℕ) (transfer : TransferInfo) (x : Share) (xs : List Share)
      → with_transaction
          (queue_payments now transfer
            (distributions_of fl fee_address fee_percent now transfer (x ∷ xs)))
          (live s t)
        ≡ (blocked, record (live s t) { taken = true })
  unfolding distributions_of
  fees_blocked s t now transfer x xs =
      with_fee_blocked s t now transfer _ (fee_distribution fl fee_address fee_percent now transfer)

  -- On a database that fails no call, a transfer at a height that is not settled, with a share in
  -- the last six hours, is never processed: the call waits for the connection for ever, and the
  -- connection stays taken. Height and amount are below 2^63.
  pub process_transfer_blocks :
      (s : Schema) (t : Tables) (now : ℕ) (transfer : TransferInfo)
      → transfer.height < 2 ^ 63
      → transfer.amount < 2 ^ 63
      → has_final transfer.height t.blocks_found ≡ false
      → newest_first (since (now - 21600) t.shares) ≢ []
      → (t' : Tables) × (process_transfer fl fee_address fee_percent now transfer (live s t)
          ≡ (blocked, record (live s t') { taken = true }))
  unfolding process_transfer
  process_transfer_blocks s t now transfer h k new some_share =
      elim (List-cases (newest_first (since (now - 21600) t.shares))) [
        | inl e ↦ absurd (some_share e)
        | inr (x, xs, e) ↦
            let (t', stored, same) = create_block_returns s t now transfer h k in
            let ds : List Distribution =
              distributions_of fl fee_address fee_percent now transfer (x ∷ xs) in
            let mark : M (Option (Unit {0})) = mark_block_processed now transfer.height in
            let pay : List Distribution → M (Option (Unit {0})) =
              λ ds. with_transaction (queue_payments now transfer ds) >>= or_fail (λ _. mark) in
            let work : M (Option (Unit {0})) =
              create_block (block_of now transfer)
              >>= or_fail (λ _.
                calculate_distributions fl fee_address fee_percent now transfer >>= or_fail pay) in
            (
              t',
              ap (then_do (or_fail (λ processed. if processed then pure (some tt) else work)))
                    (is_block_processed_new s t transfer.height h new)
                  ∙ ap
                      (then_do (
                        or_fail (λ _.
                          calculate_distributions fl fee_address fee_percent now transfer
                          >>= or_fail pay)))
                      stored
                  ∙ ap (then_do (or_fail pay)) (
                      after_block s t' now transfer x xs
                        (ap (λ l. newest_first (since (now - 21600) l)) same ∙ e))
                  ∙ ap (then_do (or_fail (λ _. mark))) (fees_blocked s t' now transfer x xs),
            )
      ]
