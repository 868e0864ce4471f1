-- ===== src/Ledger/Marks.antt =====
-- The guards against processing a transfer or a block twice, of ledger.go.
use go_pool.Base.{
  ℕ, ◌^◌, ◌<◌, ◌≡◌, ◌≢◌, refl, true, false, ◌||◌, List, [], ◌∷◌, ◌++◌, none, some, ◌==◌,
  if◌then◌else◌, Bool-cases, inl, inr, lt→ltb, arith, ==_refl,
}
use go_pool.Base.Bytes.{Bytes, bytes_eq, bytes_eq_refl}
use go_pool.Ledger.Store.{BlockFound, ProcessedTransfer, Tables, Schema, done, live}
use go_pool.Ledger.Blocks.{
  has_txid, is_transfer_processed, mark_transfer_processed, has_final, is_block_processed, complete,
  create_block, mark_block_processed, clashes, find_block,
}

has_txid-append :
    (txid : Bytes) (xs : List ProcessedTransfer) (x : ProcessedTransfer)
    → has_txid txid (xs ++ (x ∷ [])) ≡ has_txid txid xs || bytes_eq x.tx_id txid
has_txid-append txid [] x = ground arith
has_txid-append txid (y ∷ ys) x = ground (arith, has_txid-append txid ys x)

-- On a database that fails no call, a marked transfer is found to be processed, and a second mark
-- changes nothing. Height and amount are below 2^63.
pub mark_transfer_processed_once :
    (txid : Bytes) (height amount : ℕ) (s : Schema) (t : Tables)
    → height < 2 ^ 63
    → amount < 2 ^ 63
    → (t' : Tables) × (mark_transfer_processed txid height amount (live s t)
        ≡ (done (some tt), live s t'))
      × (is_transfer_processed txid (live s t') ≡ (done (some true), live s t'))
      × (mark_transfer_processed txid height amount (live s t') ≡ (done (some tt), live s t'))
unfolding mark_transfer_processed is_transfer_processed
mark_transfer_processed_once txid height amount s t h k =
    let row : ProcessedTransfer = record { tx_id = txid; height = height; amount = amount } in
    let marked : List ProcessedTransfer =
      if has_txid txid t.processed_transfers
      then t.processed_transfers
      else t.processed_transfers ++ (row ∷ []) in
    let there : has_txid txid marked ≡ true =
      ground (arith, has_txid-append txid t.processed_transfers row, bytes_eq_refl txid) in
    (
      record t { processed_transfers = marked },
      elim (Bool-cases (has_txid txid t.processed_transfers)) [
        | inl e ↦ rw (lt→ltb height (2 ^ 63) h, lt→ltb amount (2 ^ 63) k, e) refl
        | inr e ↦ rw (lt→ltb height (2 ^ 63) h, lt→ltb amount (2 ^ 63) k, e) refl
      ],
      rw there refl,
      rw (lt→ltb height (2 ^ 63) h, lt→ltb amount (2 ^ 63) k, there) refl,
    )

has_final-complete :
    (now height : ℕ) (bs : List BlockFound)
    → find_block height bs ≢ none
    → has_final height (complete now height bs) ≡ true
has_final-complete now height [] h = absurd (h refl)
has_final-complete now height (b ∷ bs) h = elim (Bool-cases (b.height == height)) [
  | inl same ↦ rw same (rw same refl)
  | inr other ↦
      let later : find_block height bs ≢ none = rw other at h in
      rw other (rw other (has_final-complete now height bs later))
]

-- On a database that fails no call, a stored block that is marked as processed is found to be
-- processed, and the payments stay as they are. The height is below 2^63.
pub mark_block_processed_final :
    (now height : ℕ) (s : Schema) (t : Tables)
    → height < 2 ^ 63
    → find_block height t.blocks_found ≢ none
    → (t' : Tables) × (mark_block_processed now height (live s t) ≡ (done (some tt), live s t'))
      × (is_block_processed height (live s t') ≡ (done (some true), live s t'))
      × (t'.payments ≡ t.payments)
unfolding mark_block_processed is_block_processed
mark_block_processed_final now height s t h k = (
  record t { blocks_found = complete now height t.blocks_found },
  rw (lt→ltb height (2 ^ 63) h) refl,
  rw (lt→ltb height (2 ^ 63) h, has_final-complete now height t.blocks_found k) refl,
  refl,
)

find_block-append :
    (bs : List BlockFound) (b : BlockFound) → find_block b.height (bs ++ (b ∷ [])) ≢ none
find_block-append [] b h = ground (arith, ==_refl b.height)
find_block-append (c ∷ bs) b h = ground (arith, find_block-append bs b)

-- A block whose height and hash are new is stored, and then it is found.
pub create_block_found :
    (b : BlockFound) (s : Schema) (t : Tables)
    → b.height < 2 ^ 63
    → b.reward_total < 2 ^ 63
    → clashes b.height b.hash t.blocks_found ≡ false
    → (t' : Tables) × (create_block b (live s t) ≡ (done (some tt), live s t'))
      × (find_block b.height t'.blocks_found ≢ none)
      × (t'.payments ≡ t.payments)
      × (t'.shares ≡ t.shares)
unfolding create_block
create_block_found b s t h k new = (
  record t { blocks_found = t.blocks_found ++ (record b { processed_at = none } ∷ []) },
  rw (lt→ltb b.height (2 ^ 63) h, lt→ltb b.reward_total (2 ^ 63) k, new) refl,
  find_block-append t.blocks_found (record b { processed_at = none }),
  refl,
  refl,
)
