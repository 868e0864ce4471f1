-- ===== src/Ledger/Shares.antt =====
-- ledger.go: the calls on shares.
pub mod Window
pub mod Miners
use go_pool.Base.{
  ℕ, ◌+◌, ◌<◌, ◌^◌, Bool, true, false, ◌&&◌, ◌||◌, List, [], ◌∷◌, ◌++◌, Option, none, some, ltb,
  leb, ◌==◌, if◌then◌else◌, length,
}
use go_pool.Base.Bytes.{Bytes, bytes_eq}
use go_pool.Ledger.Store.{
  Share, BlockFound, BlockStatus, completed, Tables, Schema, M, exec, fits, then_do, ◌>>=◌,
}
use go_pool.Ledger.Blocks.{has_block}

-- In schema.sql the block height is NOT NULL, and the height of a found block.
abbrev pub block_fits : Option ℕ → Schema → Tables → Bool
block_fits none s t = s.share_without_block
block_fits (some height) s t = has_block height t.blocks_found

-- `INSERT INTO shares`
unfoldable pub add_share : Share → M (Option (Unit {0}))
unfolding exec
add_share share = exec λ s t.
    if fits share.difficulty && block_fits share.block_height s t
    then some (tt, record t { shares = t.shares ++ (share ∷ []) })
    else none

abbrev pub since : ℕ → List Share → List Share
since start [] = []
since start (x ∷ xs) = if leb start x.timestamp then x ∷ since start xs else since start xs

-- `ORDER BY timestamp DESC`, with equal times in the order of insertion.
unfoldable pub place : Share → List Share → List Share
place x [] = x ∷ []
place x (y ∷ ys) = if leb y.timestamp x.timestamp then x ∷ (y ∷ ys) else y ∷ place x ys

unfoldable pub newest_first : List Share → List Share
newest_first [] = []
newest_first (x ∷ xs) = place x (newest_first xs)

unfoldable pub get_shares_in_window : ℕ → M (Option (List Share))
unfolding exec
get_shares_in_window start = exec λ s t. some (newest_first (since start t.shares), t)

abbrev pub of_miner : Bytes → List Share → List Share
of_miner addr [] = []
of_miner addr (x ∷ xs) =
    if bytes_eq x.miner_addr addr then x ∷ of_miner addr xs else of_miner addr xs

unfoldable pub get_miner_shares_in_window : Bytes → ℕ → M (Option (List Share))
unfolding exec
get_miner_shares_in_window addr start =
    exec λ s t. some (newest_first (since start (of_miner addr t.shares)), t)

abbrev pub contains_bytes : Bytes → List Bytes → Bool
contains_bytes x [] = false
contains_bytes x (y ∷ ys) = bytes_eq y x || contains_bytes x ys

-- `SELECT DISTINCT`
abbrev pub distinct : List Bytes → List Bytes
distinct [] = []
distinct (x ∷ xs) = if contains_bytes x xs then distinct xs else x ∷ distinct xs

abbrev pub workers : List Share → List Bytes
workers [] = []
workers (x ∷ xs) = x.worker_id ∷ workers xs

abbrev pub miners : List Share → List Bytes
miners [] = []
miners (x ∷ xs) = x.miner_addr ∷ miners xs

unfoldable pub get_active_workers : Bytes → ℕ → M (Option (List Bytes))
unfolding exec
get_active_workers addr start =
    exec λ s t. some (distinct (workers (since start (of_miner addr t.shares))), t)

unfoldable pub get_active_miner_count : ℕ → M (Option ℕ)
unfolding exec
get_active_miner_count start =
    exec λ s t. some (length (distinct (miners (since start t.shares))), t)

-- `MAX(timestamp)` of the completed blocks; 0 stands for no block, as in the caller.
abbrev pub last_block_time : List BlockFound → ℕ
last_block_time [] = 0
last_block_time (b ∷ bs) =
    let rest = last_block_time bs in
    elim b.status [
      | BlockStatus.completed ↦ if ltb rest b.timestamp then b.timestamp else rest
      | _ ↦ rest
    ]

abbrev pub difficulty_after : ℕ → List Share → ℕ
difficulty_after time [] = 0
difficulty_after time (x ∷ xs) =
    (if ltb time x.timestamp then x.difficulty else 0) + difficulty_after time xs

abbrev or_zero : Option ℕ → ℕ
or_zero none = 0
or_zero (some n) = n

-- `GetRoundShares`: an error of the first query counts as no block. SQLite's SUM fails where it
-- leaves the 64-bit integers.
unfoldable pub get_round_shares : M (Option ℕ)
unfolding exec
get_round_shares = exec (λ s t. some (last_block_time t.blocks_found, t)) >>= λ time. exec λ s t.
    let sum = difficulty_after (or_zero time) t.shares in if fits sum then some (sum, t) else none
