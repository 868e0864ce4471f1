-- ===== src/Ledger/Blocks.antt =====
-- ledger.go: the calls on processed transfers, found blocks, the blockchain state and the last height.
use go_pool.Base.{
  ℕ, Bool, true, false, ◌&&◌, ◌||◌, List, [], ◌∷◌, ◌++◌, Option, none, some, ◌==◌, if◌then◌else◌,
}
use go_pool.Base.Bytes.{Bytes, bytes_eq}
use go_pool.Ledger.Store.{
  BlockFound, BlockStatus, pending, processing, completed, orphaned, ProcessedTransfer,
  BlockchainInfo, M, exec, fits,
}

abbrev pub has_txid : Bytes → List ProcessedTransfer → Bool
has_txid txid [] = false
has_txid txid (x ∷ xs) = bytes_eq x.tx_id txid || has_txid txid xs

-- `SELECT COUNT(*) FROM processed_transfers WHERE txid = ?` and `count > 0`.
unfoldable pub is_transfer_processed : Bytes → M (Option Bool)
unfolding exec
is_transfer_processed txid = exec λ s t. some (has_txid txid t.processed_transfers, t)

-- `INSERT OR IGNORE`: the txid is the primary key.
unfoldable pub mark_transfer_processed : Bytes → ℕ → ℕ → M (Option (Unit {0}))
unfolding exec
mark_transfer_processed txid height amount = exec λ s t.
    if fits height && fits amount
    then some (
      tt,
      if has_txid txid t.processed_transfers then t else record t {
        processed_transfers =
            t.processed_transfers
            ++ (record { tx_id = txid; height = height; amount = amount } ∷ []);
      },
    )
    else none

abbrev pub is_final : BlockStatus → Bool
is_final pending = false
is_final processing = false
is_final completed = true
is_final orphaned = true

abbrev pub has_final : ℕ → List BlockFound → Bool
has_final height [] = false
has_final height (b ∷ bs) = ((b.height == height) && is_final b.status) || has_final height bs

-- `status IN ('completed', 'orphaned')`
unfoldable pub is_block_processed : ℕ → M (Option Bool)
unfolding exec
is_block_processed height =
    exec λ s t. if fits height then some (has_final height t.blocks_found, t) else none

abbrev pub clashes : ℕ → Bytes → List BlockFound → Bool
clashes height hash [] = false
clashes height hash (b ∷ bs) =
    (b.height == height) || (bytes_eq b.hash hash || clashes height hash bs)

-- `INSERT OR IGNORE`: the height is the primary key and the hash is unique.
unfoldable pub create_block : BlockFound → M (Option (Unit {0}))
unfolding exec
create_block block = exec λ s t.
    if fits block.height && fits block.reward_total
    then some (
      tt,
      if clashes block.height block.hash t.blocks_found then t else record t {
        blocks_found = t.blocks_found ++ (record block { processed_at = none } ∷ []);
      },
    )
    else none

-- `AddBlockFound` is `CreateBlock` with the time of the call as `found_at`.
unfoldable pub add_block_found : ℕ → BlockFound → M (Option (Unit {0}))
unfolding create_block
add_block_found now block = create_block (record block { found_at = now })

abbrev pub find_block : ℕ → List BlockFound → Option BlockFound
find_block height [] = none
find_block height (b ∷ bs) = if b.height == height then some b else find_block height bs

-- The foreign key on the height of a found block: the connection starts with the keys off, and
-- schema.sql turns them on.
abbrev pub has_block : ℕ → List BlockFound → Bool
has_block height [] = false
has_block height (b ∷ bs) = (b.height == height) || has_block height bs

-- `GetBlock`; the inner `none` is the nil pointer for a height with no row.
unfoldable pub get_block : ℕ → M (Option (Option BlockFound))
unfolding exec
get_block height =
    exec λ s t. if fits height then some (find_block height t.blocks_found, t) else none

abbrev pub complete : ℕ → ℕ → List BlockFound → List BlockFound
complete now height [] = []
complete now height (b ∷ bs) =
    (if b.height == height then record b { processed_at = some now; status = completed } else b)
    ∷ complete now height bs

unfoldable pub mark_block_processed : ℕ → ℕ → M (Option (Unit {0}))
unfolding exec
mark_block_processed now height = exec λ s t.
    if fits height
    then some (tt, record t { blocks_found = complete now height t.blocks_found })
    else none

unfoldable pub get_blockchain_info : M (Option BlockchainInfo)
unfolding exec
get_blockchain_info = exec λ s t. some (t.blockchain_info, t)

unfoldable pub update_blockchain_info : ℕ → ℕ → ℕ → M (Option (Unit {0}))
unfolding exec
update_blockchain_info height block_reward difficulty = exec λ s t.
    if fits height && (fits block_reward && fits difficulty)
    then some (
      tt,
      record t {
        blockchain_info = record {
          height = height;
          block_reward = block_reward;
          difficulty = difficulty;
        };
      },
    )
    else none

-- The value is stored as text by `FormatUint` and read by `ParseUint`, so any uint64 passes.
unfoldable pub get_last_processed_height : M (Option ℕ)
unfolding exec
get_last_processed_height = exec λ s t. some (t.last_processed_height, t)

unfoldable pub update_last_processed_height : ℕ → M (Option (Unit {0}))
unfolding exec
update_last_processed_height height =
    exec λ s t. some (tt, record t { last_processed_height = height })
