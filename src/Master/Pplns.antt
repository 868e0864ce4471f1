-- ===== src/Master/Pplns.antt =====
-- cmd/master/pplns.go and `DistributeBlockRewardPPLNS` of master.go: the window of shares that a
-- block pays, and the reward of each miner.
use go_pool.Base.{
  ℕ, ◌+◌, ◌-◌, ◌%◌, ◌^◌, List, [], ◌∷◌, ◌++◌, Option, none, some, ltb, leb, ◌==◌, if◌then◌else◌,
  length, drop,
}
use go_pool.Base.Bytes.{Bytes, bytes_eq}
use go_pool.Base.Assoc.{Assoc, lookup, insert, bytes_keys}
use go_pool.Float.{Float}
use go_pool.Ledger.Store.{Share, Distribution, Balance, BlockchainInfo, done, M, pure, ◌>>=◌}
use go_pool.Ledger.Shares.{get_shares_in_window, get_round_shares}
use go_pool.Ledger.Blocks.{get_blockchain_info, mark_block_processed}
use go_pool.Ledger.Balances.{create_distribution, get_balance, store_balance, store_pool_fee}
use mathlib.Core.List.{reverse}

-- The loop of `GetSharesForPPLNS` over the list from its last share to its first. Each share is put
-- in front of those taken so far; the loop ends when their difficulty, a uint64, reaches the window.
unfoldable pub pplns_loop : ℕ → List Share → ℕ → List Share → List Share
pplns_loop window [] total acc = acc
pplns_loop window (x ∷ xs) total acc =
    let total' = (total + x.difficulty) % 2 ^ 64 in
    let rest = pplns_loop window xs total' (x ∷ acc) in if leb window total' then x ∷ acc else rest

unfoldable pub pplns_shares : ℕ → List Share → List Share
pplns_shares window all_shares = pplns_loop window (reverse all_shares) 0 []

abbrev pub or_zero : Option ℕ → ℕ
or_zero none = 0
or_zero (some n) = n

-- `minerDiffs[share.MinerAddr] += share.Difficulty`, a map of uint64.
unfoldable pub miner_diffs : List Share → Assoc Bytes ℕ → Assoc Bytes ℕ
miner_diffs [] m = m
miner_diffs (x ∷ xs) m =
    miner_diffs xs
      (insert x.miner_addr ((or_zero (lookup x.miner_addr m) + x.difficulty) % 2 ^ 64) m)

-- `totalDiff += share.Difficulty`
unfoldable pub sum_diff : List Share → ℕ → ℕ
sum_diff [] total = total
sum_diff (x ∷ xs) total = sum_diff xs ((total + x.difficulty) % 2 ^ 64)

module _ (fl : Float) where
  open fl use {F, of_nat, to_nat, add, sub, mul, div, lt}

  pub record PplnsManager : Type 0 where
    pub current_n : ℕ
    pub last_block_height : ℕ
    pub pool_luck_history : List F

  pub record PplnsConfig : Type 0 where
    pub min_window : F
    pub max_window : F
    pub luck_factor : F
    pub fee_percent : F

  -- The clamp of `GetPPLNSWindow`.
  unfoldable pub clamp_window : ℕ → ℕ → ℕ → ℕ
  clamp_window lo hi n = if ltb n lo then lo else if ltb hi n then hi else n

  abbrev net_difficulty : Option BlockchainInfo → ℕ
  net_difficulty none = 1
  net_difficulty (some info) = info.difficulty

  -- `GetPPLNSWindow`: the window is kept as the manager's N.
  unfoldable pub window_of : PplnsConfig → Option BlockchainInfo → PplnsManager → ℕ
  unfolding clamp_window
  window_of cfg info p =
      clamp_window (to_nat (mul (of_nat (net_difficulty info)) cfg.min_window))
        (to_nat (mul (of_nat (net_difficulty info)) cfg.max_window)) p.current_n

  abbrev pub set_n : PplnsManager → ℕ → PplnsManager
  set_n p n = record {
    current_n = n;
    last_block_height = p.last_block_height;
    pool_luck_history = p.pool_luck_history;
  }

  unfoldable pub get_pplns_window : PplnsConfig → PplnsManager → M PplnsManager
  get_pplns_window cfg p = get_blockchain_info >>= λ info. pure (set_n p (window_of cfg info p))

  abbrev selected : ℕ → Option (List Share) → Option (List Share)
  selected window none = none
  selected window (some xs) = some (pplns_shares window xs)

  -- `GetSharesForPPLNS`
  unfoldable pub get_shares_for_pplns :
      PplnsConfig → PplnsManager → M (Option (List Share) × PplnsManager)
  get_shares_for_pplns cfg p = get_pplns_window cfg p >>= λ p'.
      get_shares_in_window 0 >>= λ shares. pure (selected p'.current_n shares, p')

  -- The history of luck keeps the last ten values.
  unfoldable pub push_luck : F → List F → List F
  push_luck luck history =
      let longer = history ++ (luck ∷ []) in
      if ltb 10 (length longer) then drop 1 longer else longer

  abbrev sum_luck : F → List F → F
  sum_luck acc [] = acc
  sum_luck acc (l ∷ ls) = sum_luck (add acc l) ls

  abbrev average : List F → F
  average history = div (sum_luck (of_nat 0) history) (of_nat (length history))

  -- The adjustment of N behind the two queries of `OnBlockFoundPPLNS`.
  unfoldable pub adjust_window : PplnsConfig → ℕ → ℕ → ℕ → PplnsManager → PplnsManager
  unfolding push_luck
  adjust_window cfg height round_shares expected p =
      let history = push_luck (div (of_nat expected) (of_nat round_shares)) p.pool_luck_history in
      let adjustment = add (of_nat 1) (mul (sub (of_nat 1) (average history)) cfg.luck_factor) in
      if expected == 0 then p else record {
        current_n = to_nat (mul (of_nat p.current_n) adjustment);
        last_block_height = height;
        pool_luck_history = history;
      }

  abbrev adjusted : PplnsConfig → ℕ → Option ℕ → PplnsManager → M PplnsManager
  adjusted cfg height none p = pure p
  adjusted cfg height (some round_shares) p = get_blockchain_info >>= λ info.
      pure (adjust_window cfg height round_shares (net_difficulty info) p)

  -- `OnBlockFoundPPLNS`
  unfoldable pub on_block_found_pplns : PplnsConfig → ℕ → PplnsManager → M PplnsManager
  unfolding adjust_window
  on_block_found_pplns cfg height p =
      get_round_shares >>= λ round_shares. adjusted cfg height round_shares p

  -- One miner's part of the net reward.
  abbrev pub miner_reward : ℕ → ℕ → ℕ → ℕ
  miner_reward net diff total = to_nat (mul (of_nat net) (div (of_nat diff) (of_nat total)))

  abbrev credit_balance : ℕ → ℕ → Option Balance → M (Unit {0})
  credit_balance now reward none = pure tt
  credit_balance now reward (some b) =
      store_balance
        (record b { balance_pending = (b.balance_pending + reward) % 2 ^ 64; last_updated = now })
      >>= λ _. pure tt

  abbrev credited : ℕ → Bytes → ℕ → Option (Unit {0}) → M (Unit {0})
  credited now addr reward none = pure tt
  credited now addr reward (some _) = get_balance now addr >>= credit_balance now reward

  abbrev pub reward_row : ℕ → ℕ → Bytes → ℕ → ℕ → Distribution
  reward_row now height addr diff reward = record {
    block_height = height;
    miner_addr = addr;
    shares_contrib = diff;
    reward_gross = reward;
    reward_net = reward;
    calculated_at = now;
  }

  -- One round of the loop over the miners; an error of a call ends the round.
  unfoldable pub distribute_to : ℕ → ℕ → ℕ → ℕ → Bytes × ℕ → M (Unit {0})
  distribute_to now height net total (addr, diff) =
      let reward = miner_reward net diff total in
      let round : M (Unit {0}) =
        create_distribution (reward_row now height addr diff reward) >>= credited now addr reward in
      if reward == 0 then pure tt else round

  unfoldable pub distribute_all : ℕ → ℕ → ℕ → ℕ → Assoc Bytes ℕ → M (Unit {0})
  distribute_all now height net total [] db = (done tt, db)
  distribute_all now height net total (e ∷ m) db =
      (distribute_to now height net total e >>= λ _. distribute_all now height net total m) db

  abbrev fee_of : PplnsConfig → ℕ → ℕ
  fee_of cfg reward = to_nat (mul (of_nat reward) (div cfg.fee_percent (of_nat 100)))

  abbrev record_fee : ℕ → ℕ → M (Unit {0})
  record_fee height fee =
      if ltb 0 fee then (store_pool_fee height fee >>= λ _. pure tt) else pure tt

  -- What `DistributeBlockRewardPPLNS` does with the shares; `none` is its error.
  unfoldable pub distribute_shares :
      PplnsConfig
      → ℕ
      → ℕ
      → ℕ
      → Option (List Share) × PplnsManager
      → M (Option (Unit {0}) × PplnsManager)
  distribute_shares cfg now height reward (none, p) = pure (none, p)
  distribute_shares cfg now height reward (some [], p) = pure (some tt, p)
  distribute_shares cfg now height reward (some (x ∷ xs), p) =
      let total = sum_diff (x ∷ xs) 0 in
      let fee = fee_of cfg reward in
      let net = (reward + 2 ^ 64 - fee) % 2 ^ 64 in
      let work : M (Option (Unit {0}) × PplnsManager) =
        distribute_all now height net total (miner_diffs (x ∷ xs) []) >>= λ _.
        record_fee height fee >>= λ _. mark_block_processed now height >>= λ _.
        on_block_found_pplns cfg height p >>= λ p'. pure (some tt, p') in
      if total == 0 then pure (none, p) else work

  -- `DistributeBlockRewardPPLNS`
  unfoldable pub distribute_block_reward_pplns :
      PplnsConfig → ℕ → ℕ → ℕ → PplnsManager → M (Option (Unit {0}) × PplnsManager)
  distribute_block_reward_pplns cfg now height reward p =
      get_shares_for_pplns cfg p >>= distribute_shares cfg now height reward

  abbrev of_addr : Bytes → List Share → ℕ → ℕ
  of_addr addr [] total = total
  of_addr addr (x ∷ xs) total =
      of_addr addr xs
        (if bytes_eq x.miner_addr addr then (total + x.difficulty) % 2 ^ 64 else total)

  abbrev percentage : Bytes → Option (List Share) → Option F
  percentage addr none = none
  percentage addr (some xs) =
      let total = sum_diff xs 0 in
      if total == 0 then some (of_nat 0) else some (div (of_nat (of_addr addr xs 0)) (of_nat total))

  -- `GetMinerSharePercentage`
  unfoldable pub get_miner_share_percentage :
      PplnsConfig → Bytes → PplnsManager → M (Option F × PplnsManager)
  get_miner_share_percentage cfg addr p =
      get_shares_for_pplns cfg p >>= λ r. pure (percentage addr r.0, r.1)
