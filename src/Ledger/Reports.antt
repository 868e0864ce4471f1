-- ===== src/Ledger/Reports.antt =====
-- ledger.go: the reports for the statistics and the API, on blocks, withdrawals, miners and workers.
-- Rows that a query leaves in any order are in the order of the table.
pub mod Groups
pub mod Single
pub mod Shown
use go_pool.Base.{
  ℕ, ◌+◌, ◌-◌, ◌%◌, ◌^◌, Bool, true, false, ◌&&◌, List, [], ◌∷◌, ◌++◌, Option, none, some, ltb, leb,
  ◌==◌, if◌then◌else◌, length, take, map,
}
use go_pool.Base.Bytes.{Bytes, bytes_eq}
use go_pool.Float.{Float}
use go_pool.Ledger.Store.{
  BlockFound, BlockStatus, Share, Payment, PaymentStatus, sent, Tables, M, pure, exec, fits, ◌>>=◌,
}
use go_pool.Ledger.Shares.{since, of_miner, distinct, workers, miners}

pub record BlockInfo : Type 0 where
  pub height : ℕ
  pub hash : Bytes
  pub reward_total : ℕ
  pub timestamp : ℕ
  pub status : BlockStatus

abbrev pub block_info : BlockFound → BlockInfo
block_info b = record {
  height = b.height;
  hash = b.hash;
  reward_total = b.reward_total;
  timestamp = b.timestamp;
  status = b.status;
}

-- `ORDER BY height DESC`
unfoldable pub place_block : BlockFound → List BlockFound → List BlockFound
place_block b [] = b ∷ []
place_block b (c ∷ cs) = if leb c.height b.height then b ∷ (c ∷ cs) else c ∷ place_block b cs

unfoldable pub highest_first : List BlockFound → List BlockFound
highest_first [] = []
highest_first (b ∷ bs) = place_block b (highest_first bs)

unfoldable pub get_recent_blocks : ℕ → M (Option (List BlockInfo))
unfolding exec
get_recent_blocks limit =
    exec λ s t. some (take limit (map block_info (highest_first t.blocks_found)), t)

pub record Withdrawal : Type 0 where
  pub tx_id : Bytes
  pub amount : ℕ
  pub timestamp : ℕ

abbrev or_zero : Option ℕ → ℕ
or_zero none = 0
or_zero (some n) = n

abbrev sent_with : Payment → Option Bytes → Option Withdrawal
sent_with p none = none
sent_with p (some txid) =
    some (record { tx_id = txid; amount = p.amount; timestamp = or_zero p.updated_at })

abbrev withdrawal_of : Bytes → Payment → Option Withdrawal
withdrawal_of addr p = elim p.status [
  | PaymentStatus.sent ↦ if bytes_eq p.recipient_addr addr then sent_with p p.tx_id else none
  | _ ↦ none
]

abbrev pub withdrawals_of : Bytes → List Payment → List Withdrawal
withdrawals_of addr [] = []
withdrawals_of addr (p ∷ ps) =
    let rest = withdrawals_of addr ps in
    elim (withdrawal_of addr p) [ none ↦ rest | some w ↦ w ∷ rest ]

-- `ORDER BY updated_at DESC`; a row that was never updated comes last.
abbrev place_withdrawal : Withdrawal → List Withdrawal → List Withdrawal
place_withdrawal w [] = w ∷ []
place_withdrawal w (v ∷ vs) =
    if leb v.timestamp w.timestamp then w ∷ (v ∷ vs) else v ∷ place_withdrawal w vs

abbrev pub latest_first : List Withdrawal → List Withdrawal
latest_first [] = []
latest_first (w ∷ ws) = place_withdrawal w (latest_first ws)

-- The query reads the column `updated_at` of payments, and fails in a schema without it.
unfoldable pub get_miner_withdrawals : Bytes → ℕ → M (Option (List Withdrawal))
unfolding exec
get_miner_withdrawals addr limit = exec λ s t.
    if s.payment_updated_at
    then some (take limit (latest_first (withdrawals_of addr t.payments)), t)
    else none

-- `miner_address || ':' || worker_id`
abbrev pub worker_keys : List Share → List Bytes
worker_keys [] = []
worker_keys (x ∷ xs) = (x.miner_addr ++ (b':' ∷ x.worker_id)) ∷ worker_keys xs

unfoldable pub get_active_worker_count : ℕ → M (Option ℕ)
unfolding exec
get_active_worker_count start =
    exec λ s t. some (length (distinct (worker_keys (since start t.shares))), t)

-- `SUM(difficulty)` and `MAX(timestamp)`
abbrev pub sum_difficulty : List Share → ℕ
sum_difficulty [] = 0
sum_difficulty (x ∷ xs) = x.difficulty + sum_difficulty xs

abbrev pub last_time : List Share → ℕ
last_time [] = 0
last_time (x ∷ xs) = let rest = last_time xs in if ltb rest x.timestamp then x.timestamp else rest

-- The local type `tempMiner` of `GetTopMinersForAPI`.
pub record TempMiner : Type 0 where
  pub addr : Bytes
  pub workers : ℕ
  pub shares_in_window : ℕ
  pub pplns_weight : ℕ
  pub last_share_time : ℕ

abbrev pub temp_miner : List Share → Bytes → TempMiner
temp_miner xs addr =
    let own = of_miner addr xs in
    record {
      addr = addr;
      workers = length (distinct (workers own));
      shares_in_window = length own;
      pplns_weight = sum_difficulty own;
      last_share_time = last_time own;
    }

abbrev pub all_fit : List TempMiner → Bool
all_fit [] = true
all_fit (m ∷ ms) = fits m.pplns_weight && all_fit ms

-- `ORDER BY pplns_weight DESC`
unfoldable pub place_miner : TempMiner → List TempMiner → List TempMiner
place_miner m [] = m ∷ []
place_miner m (n ∷ ns) =
    if leb n.pplns_weight m.pplns_weight then m ∷ (n ∷ ns) else n ∷ place_miner m ns

unfoldable pub heaviest_first : List TempMiner → List TempMiner
heaviest_first [] = []
heaviest_first (m ∷ ms) = place_miner m (heaviest_first ms)

-- `GROUP BY miner_address`
abbrev pub miner_groups : List Share → List TempMiner
miner_groups window = map (temp_miner window) (distinct (miners window))

-- The first query of `GetTopMinersForAPI`.
unfoldable pub top_miners : ℕ → ℕ → M (Option (List TempMiner))
unfolding exec
top_miners start limit = exec λ s t.
    let window = since start t.shares in
    if all_fit (miner_groups window)
    then some (take limit (heaviest_first (miner_groups window)), t)
    else none

-- `totalWeight += tm.pplnsWeight`
unfoldable pub total_weight : List TempMiner → ℕ → ℕ
total_weight [] total = total
total_weight (m ∷ ms) total = total_weight ms ((total + m.pplns_weight) % 2 ^ 64)

unfoldable pub count_shares : Bytes → M (Option ℕ)
unfolding exec
count_shares addr = exec λ s t. some (length (of_miner addr t.shares), t)

-- The local type `tempWorker` of `GetMinerWorkerStats`.
pub record TempWorker : Type 0 where
  pub id : Bytes
  pub total_shares : ℕ
  pub shares_in_window : ℕ
  pub window_diff : ℕ
  pub last_share_time : ℕ

abbrev pub of_worker : Bytes → List Share → List Share
of_worker id [] = []
of_worker id (x ∷ xs) = if bytes_eq x.worker_id id then x ∷ of_worker id xs else of_worker id xs

abbrev pub temp_worker : ℕ → List Share → Bytes → TempWorker
temp_worker start xs id =
    let own = of_worker id xs in
    record {
      id = id;
      total_shares = length own;
      shares_in_window = length (since start own);
      window_diff = sum_difficulty (since start own);
      last_share_time = last_time own;
    }

abbrev pub diffs_fit : List TempWorker → Bool
diffs_fit [] = true
diffs_fit (w ∷ ws) = fits w.window_diff && diffs_fit ws

-- `ORDER BY total_shares DESC`
unfoldable pub place_worker : TempWorker → List TempWorker → List TempWorker
place_worker w [] = w ∷ []
place_worker w (v ∷ vs) =
    if leb v.total_shares w.total_shares then w ∷ (v ∷ vs) else v ∷ place_worker w vs

unfoldable pub busiest_first : List TempWorker → List TempWorker
busiest_first [] = []
busiest_first (w ∷ ws) = place_worker w (busiest_first ws)

-- `GROUP BY worker_id`
abbrev pub worker_groups : ℕ → List Share → List TempWorker
worker_groups start own = map (temp_worker start own) (distinct (workers own))

-- The query of `GetMinerWorkerStats`.
unfoldable pub miner_workers : Bytes → ℕ → M (Option (List TempWorker))
unfolding exec
miner_workers addr start = exec λ s t.
    let own = of_miner addr t.shares in
    if diffs_fit (worker_groups start own)
    then some (busiest_first (worker_groups start own), t)
    else none

-- `totalShares += tw.totalShares`
unfoldable pub total_count : List TempWorker → ℕ → ℕ
total_count [] total = total
total_count (w ∷ ws) total = total_count ws ((total + w.total_shares) % 2 ^ 64)
