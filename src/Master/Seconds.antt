-- ===== src/Master/Seconds.antt =====
-- cmd/master/pplns.go `GetPplnsWindow` and `InitPPLNS`, pplns_diff.go, and `DistributeBlockReward` and
-- `GetEstPendingBalance` of master.go: the window in seconds, and the estimate for a miner.
use go_pool.Base.{ℕ, ◌*◌, ◌-◌, ◌%◌, ◌^◌, List, [], Option, none, some, ltb, ◌==◌, if◌then◌else◌}
use go_pool.Base.Bytes.{Bytes}
use go_pool.Float.{Float, ℤ, pos, negsuc}
use go_pool.Ledger.Store.{Share, BlockchainInfo, M, pure, ◌>>=◌}
use go_pool.Ledger.Shares.{get_shares_in_window}
use go_pool.Ledger.Blocks.{get_blockchain_info}
use go_pool.Master.Pplns.{
  PplnsManager, PplnsConfig, get_pplns_window, get_miner_share_percentage,
  distribute_block_reward_pplns,
}
use go_pool.Master.Stats.{or_empty, hashrate}

-- The bounds check of `GetPplnsWindow`, on an int.
unfoldable pub clamp_seconds : ℤ → ℕ
clamp_seconds (negsuc n) = 3600
clamp_seconds (pos n) = if ltb n 3600 then 3600 else if ltb 86400 n then 86400 else n

module _ (fl : Float) where
  open fl use {F, of_nat, to_nat, add, sub, mul, div, lt, eq, to_int}

  -- `InitPPLNS`
  unfoldable pub init_pplns : ℕ → PplnsManager fl
  init_pplns target_shares = record {
    current_n = target_shares;
    last_block_height = 0;
    pool_luck_history = [];
  }

  abbrev or_init : ℕ → Option (PplnsManager fl) → PplnsManager fl
  or_init target_shares none = init_pplns target_shares
  or_init target_shares (some p) = p

  abbrev pub seconds_of : ℕ → F → ℕ
  seconds_of window pool =
      if eq pool (of_nat 0) then 21600 else clamp_seconds (to_int (div (of_nat window) pool))

  -- `GetPplnsWindow`; an error of the query of the shares leaves no share.
  unfoldable pub get_pplns_seconds :
      PplnsConfig fl → ℕ → ℕ → Option (PplnsManager fl) → M (ℕ × PplnsManager fl)
  get_pplns_seconds cfg target_shares now manager =
      get_pplns_window fl cfg (or_init target_shares manager) >>= λ p.
      get_shares_in_window (now - 300) >>= λ shares.
      pure (seconds_of p.current_n (hashrate fl 300 (or_empty shares)), p)

  abbrev legacy_seconds : ℕ → F → F → ℕ
  legacy_seconds block_time net pool =
      let interval : F = mul (mul (div net pool) (of_nat block_time)) (of_nat 2) in
      if eq pool (of_nat 0)
      then 6 * 3600
      else if lt (of_nat (6 * 3600)) interval
      then 6 * 3600
      else if lt interval (mul (of_nat block_time) (of_nat 2))
      then (block_time * 2) % 2 ^ 64
      else to_nat interval

  abbrev legacy_with : ℕ → F → Option (List Share) → ℕ
  legacy_with block_time net none = 6 * 3600
  legacy_with block_time net (some xs) = legacy_seconds block_time net (hashrate fl 300 xs)

  abbrev net_difficulty : Option BlockchainInfo → ℕ
  net_difficulty none = 1
  net_difficulty (some info) = info.difficulty

  abbrev legacy_window : ℕ → ℕ → ℕ → M ℕ
  legacy_window block_time now difficulty =
      let query : M ℕ = get_shares_in_window (now - 300) >>= λ shares.
      pure (legacy_with block_time (div (of_nat difficulty) (of_nat block_time)) shares) in
      if difficulty == 0 then pure (6 * 3600) else query

  -- `GetPplnsWindowLegacy`
  unfoldable pub get_pplns_window_legacy : ℕ → ℕ → M ℕ
  get_pplns_window_legacy block_time now =
      get_blockchain_info >>= λ info. legacy_window block_time now (net_difficulty info)

  -- `DistributeBlockReward`: an error is only logged.
  unfoldable pub distribute_block_reward :
      PplnsConfig fl → ℕ → ℕ → ℕ → PplnsManager fl → M (PplnsManager fl)
  distribute_block_reward cfg now height reward p =
      distribute_block_reward_pplns fl cfg now height reward p >>= λ r. pure r.1

  abbrev reward_of : Option BlockchainInfo → ℕ
  reward_of none = 0
  reward_of (some info) = info.block_reward

  abbrev net_reward : PplnsConfig fl → Option BlockchainInfo → F
  net_reward cfg info =
      mul (of_nat (reward_of info)) (sub (of_nat 1) (div cfg.fee_percent (of_nat 100)))

  abbrev estimated :
      PplnsConfig fl → F → Option F × PplnsManager fl → M (F × Option (PplnsManager fl))
  estimated cfg coin (none, p) = pure (of_nat 0, some p)
  estimated cfg coin (some share, p) =
      get_blockchain_info >>= λ info. pure (div (mul share (net_reward cfg info)) coin, some p)

  -- `GetEstPendingBalance`
  unfoldable pub get_est_pending_balance :
      PplnsConfig fl → F → Bytes → Option (PplnsManager fl) → M (F × Option (PplnsManager fl))
  get_est_pending_balance cfg coin addr none = pure (of_nat 0, none)
  get_est_pending_balance cfg coin addr (some p) =
      get_miner_share_percentage fl cfg addr p >>= estimated cfg coin
