-- ===== src/Master/Api/Requests.antt =====
-- cmd/master/api.go `handleStatsOld`, `handleWorkers` and `handlePoolStats`: the paths of a request,
-- and the page each is answered with. A field that is always empty or a setting is left out.
use go_pool.Base.{
  ℕ, ◌-◌, Bool, true, false, ◌&&◌, ◌||◌, List, [], ◌∷◌, Option, none, some, ltb, if◌then◌else◌,
  length, map, take,
}
use go_pool.Base.Bytes.{Bytes, bytes_eq}
use go_pool.Float.{Float}
use go_pool.Ledger.Store.{Share, BlockchainInfo, M, pure, ◌>>=◌}
use go_pool.Ledger.Shares.{get_shares_in_window, get_active_miner_count}
use go_pool.Ledger.Blocks.{get_blockchain_info}
use go_pool.Ledger.Reports.{BlockInfo, get_recent_blocks, get_active_worker_count}
use go_pool.Ledger.Miners.{WorkerStats, get_miner_worker_stats}
use go_pool.Master.Pplns.{PplnsManager, PplnsConfig, or_zero, sum_diff}
use go_pool.Master.Seconds.{get_pplns_seconds}
use go_pool.Master.Stats.{or_empty, hashrate}
use go_pool.Master.Api.Paths.{
  trim_prefix, trim_slash, slash, stats_path, workers_path, WorkerStatus, worker_status,
}
use go_pool.Master.Api.{WithdrawalView, MinerStats, get_miner_stats, or_nothing, round3, not_nan}

abbrev pub time_of : Option BlockInfo → ℕ
time_of none = 0
time_of (some b) = b.timestamp

-- The loop for `lastBlock` and `lastBlockTime`.
unfoldable pub pick_last : List BlockInfo → Option BlockInfo → Option BlockInfo
pick_last [] best = best
pick_last (b ∷ bs) best = pick_last bs (if ltb (time_of best) b.timestamp then some b else best)

-- The sum of the shares since the last block; an error leaves it at 0.
unfoldable pub round_shares_since : ℕ → M ℕ
round_shares_since time =
    let query : M ℕ = get_shares_in_window time >>= λ xs. pure (sum_diff (or_empty xs) 0) in
    if ltb 0 time then query else pure 0

abbrev or_default : Option BlockchainInfo → BlockchainInfo
or_default none = record { height = 0; block_reward = 0; difficulty = 1 }
or_default (some info) = info

module _ (fl : Float) (coin : fl.F) where
  open fl use {F, of_nat, mul, div, round, not_finite}

  pub record BlockLine : Type 0 where
    pub height : ℕ
    pub timestamp : ℕ
    pub reward : F
    pub hash : Bytes

  abbrev pub block_line : BlockInfo → BlockLine
  block_line b = record {
    height = b.height;
    timestamp = b.timestamp;
    reward = round3 fl coin (div (of_nat b.reward_total) coin);
    hash = b.hash;
  }

  abbrev last_line : Option BlockInfo → BlockLine
  last_line none = record { height = 0; timestamp = 0; reward = of_nat 0; hash = [] }
  last_line (some b) = block_line b

  pub record PoolPage : Type 0 where
    pub pool_hr : F
    pub net_hr : F
    pub connected_addresses : ℕ
    pub connected_workers : ℕ
    pub num_blocks_found : ℕ
    pub recent_blocks_found : List BlockLine
    pub height : ℕ
    pub last_block : BlockLine
    pub reward : F
    pub pplns_window_seconds : ℕ
    pub network_difficulty : ℕ
    pub round_hashes : ℕ
    pub effort : F

  abbrev effort_of : ℕ → ℕ → F
  effort_of round_shares difficulty =
      if ltb 0 round_shares && ltb 0 difficulty
      then mul (div (of_nat round_shares) (of_nat difficulty)) (of_nat 100)
      else of_nat 0

  abbrev pub pool_page_of :
      ℕ → BlockchainInfo → List BlockInfo → List Share → Option ℕ → Option ℕ → ℕ → ℕ → PoolPage
  pool_page_of block_time info blocks shares miners workers round_shares seconds = record {
    pool_hr = round (hashrate fl 300 shares);
    net_hr = round (div (of_nat info.difficulty) (of_nat block_time));
    connected_addresses = or_zero miners;
    connected_workers = or_zero workers;
    num_blocks_found = length blocks;
    recent_blocks_found = map block_line (take 10 blocks);
    height = info.height;
    last_block = last_line (pick_last blocks none);
    reward = round3 fl coin (div (of_nat info.block_reward) coin);
    pplns_window_seconds = seconds;
    network_difficulty = info.difficulty;
    round_hashes = round_shares;
    effort = round3 fl coin (effort_of round_shares info.difficulty);
  }

  pub record WorkerLine : Type 0 where
    pub identifier : Bytes
    pub shares_total : ℕ
    pub shares_in_window : ℕ
    pub percentage : F
    pub last_share : ℕ
    pub hashrate : F
    pub status : WorkerStatus

  abbrev pub worker_line : ℕ → WorkerStats fl → WorkerLine
  worker_line now w = record {
    identifier = w.worker_id;
    shares_total = w.share_count;
    shares_in_window = w.shares_in_window;
    percentage = round3 fl coin w.percentage;
    last_share = w.last_share_time;
    hashrate = round w.hashrate;
    status = worker_status now w.last_share_time;
  }

  -- The page of a miner, of which `hashrate_10m` is the rate of 15 minutes.
  pub record MinerPage : Type 0 where
    pub hashrate_5m : F
    pub hashrate_10m : F
    pub hashrate_15m : F
    pub balance : F
    pub balance_pending : F
    pub paid : F
    pub withdrawals : List (F × Bytes)
    pub worker_count : ℕ

  abbrev user_withdrawal : WithdrawalView fl coin → F × Bytes
  user_withdrawal w = (w.amount, w.tx_id)

  -- The last part of `handleStatsOld` makes the calls of `GetMinerStats`.
  abbrev pub miner_page_of : MinerStats fl coin → MinerPage
  miner_page_of m = record {
    hashrate_5m = not_nan fl coin m.hashrate_5m;
    hashrate_10m = not_nan fl coin m.hashrate_15m;
    hashrate_15m = not_nan fl coin m.hashrate_15m;
    balance = m.balance;
    balance_pending = m.balance_pending;
    paid = m.paid;
    withdrawals = map user_withdrawal m.withdrawals;
    worker_count = m.worker_count;
  }

  pub data Response : Type 0 where
    pool_page : PoolPage → Response
    miner_page : MinerPage → Response
    workers_page : List WorkerLine → Response
    missing_address empty_body : Response

  -- The floating-point numbers of a page.
  abbrev line_rewards : List BlockLine → List F
  line_rewards [] = []
  line_rewards (b ∷ bs) = b.reward ∷ line_rewards bs

  abbrev amounts : List (F × Bytes) → List F
  amounts [] = []
  amounts ((amount, _) ∷ ws) = amount ∷ amounts ws

  abbrev line_rates : List WorkerLine → List F
  line_rates [] = []
  line_rates (w ∷ ws) = w.percentage ∷ (w.hashrate ∷ line_rates ws)

  abbrev pub numbers : Response → List F
  numbers (pool_page p) =
      p.pool_hr
      ∷ (p.net_hr
          ∷ (p.last_block.reward ∷ (p.reward ∷ (p.effort ∷ line_rewards p.recent_blocks_found))))
  numbers (miner_page m) =
      m.hashrate_5m
      ∷ (m.hashrate_10m
          ∷ (m.hashrate_15m ∷ (m.balance ∷ (m.balance_pending ∷ (m.paid ∷ amounts m.withdrawals)))))
  numbers (workers_page ws) = line_rates ws
  numbers missing_address = []
  numbers empty_body = []

  abbrev pub any_not_finite : List F → Bool
  any_not_finite [] = false
  any_not_finite (x ∷ xs) = not_finite x || any_not_finite xs

  -- `json.NewEncoder(w).Encode`: JSON has no infinite number, the error is dropped, and nothing is
  -- written.
  unfoldable pub encoded : Response → Response
  encoded r = if any_not_finite (numbers r) then empty_body else r

  module _ (cfg : PplnsConfig fl) (target_shares block_time now : ℕ) where
    abbrev pub Manager : Type 0
    Manager = Option (PplnsManager fl)

    -- The first branch of `handleStatsOld`.
    unfoldable pub get_pool_page : Manager → M (Response × Manager)
    get_pool_page manager = get_blockchain_info >>= λ info. get_recent_blocks 50 >>= λ blocks.
        get_shares_in_window (now - 300) >>= λ shares.
        get_active_miner_count (now - 600) >>= λ miners.
        get_active_worker_count (now - 600) >>= λ workers.
        round_shares_since (time_of (pick_last (or_nothing blocks) none)) >>= λ round_shares.
        get_pplns_seconds fl cfg target_shares now manager >>= λ w. pure (
          encoded (
              pool_page (
                pool_page_of block_time (or_default info) (or_nothing blocks) (or_empty shares)
                  miners workers round_shares w.0)),
          some w.1,
        )

    abbrev pub get_miner_page : Bytes → Manager → M (Response × Manager)
    get_miner_page [] manager = pure (missing_address, manager)
    get_miner_page (c ∷ cs) manager = get_miner_stats fl coin now (c ∷ cs) >>= λ m.
        pure (encoded (miner_page (miner_page_of m)), manager)

    abbrev pub is_pool_path : Bytes → Bool
    is_pool_path [] = true
    is_pool_path (c ∷ cs) = bytes_eq (c ∷ cs) slash

    -- `handleStatsOld`, also as `handlePoolStats`.
    unfoldable pub handle_stats_old : Bytes → Manager → M (Response × Manager)
    handle_stats_old url manager =
        let path = trim_prefix stats_path url in
        if is_pool_path path
        then get_pool_page manager
        else get_miner_page (trim_prefix slash path) manager

    abbrev pub get_workers_page : Bytes → Manager → M (Response × Manager)
    get_workers_page [] manager = pure (missing_address, manager)
    get_workers_page (c ∷ cs) manager = get_pplns_seconds fl cfg target_shares now manager >>= λ w.
        get_miner_worker_stats fl (c ∷ cs) (now - w.0) now >>= λ ws.
        pure (encoded (workers_page (map (worker_line now) (or_nothing ws))), some w.1)

    unfoldable pub handle_workers : Bytes → Manager → M (Response × Manager)
    handle_workers url manager =
        get_workers_page (trim_slash (trim_prefix workers_path url)) manager
