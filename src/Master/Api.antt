-- ===== src/Master/Api.antt =====
-- cmd/master/api.go: the answers of the HTTP API, as records in place of JSON objects. An operation
-- reads the clock once here, and the clock is past the first day of 1970.
pub mod Paths
pub mod Requests
pub mod Answers
pub mod Rates
use go_pool.Base.{
  ℕ, ◌+◌, ◌-◌, ◌%◌, ◌^◌, Bool, true, false, List, [], ◌∷◌, Option, none, some, ltb, leb,
  if◌then◌else◌, length, map,
}
use go_pool.Base.Bytes.{Bytes}
use go_pool.Float.{Float}
use go_pool.Ledger.Store.{Share, BlockStatus, Balance, M, pure, ◌>>=◌}
use go_pool.Ledger.Shares.{
  get_shares_in_window, get_miner_shares_in_window, get_active_workers, get_active_miner_count,
}
use go_pool.Ledger.Balances.{get_balance}
use go_pool.Ledger.Reports.{
  BlockInfo, Withdrawal, get_recent_blocks, get_miner_withdrawals, get_active_worker_count,
}
use go_pool.Ledger.Miners.{TopMinerApi, get_top_miners_for_api}
use go_pool.Master.Pplns.{or_zero}
use go_pool.Master.Stats.{Totals, no_totals, add_if, or_empty, hashrate}

-- The loop of `GetMinerStats`, with the age of a share as the test.
unfoldable pub age_totals : ℕ → List Share → Totals → Totals
age_totals now [] t = t
age_totals now (x ∷ xs) t = age_totals now xs (record {
  diff_5m = add_if (leb now (x.timestamp + 300)) x.difficulty t.diff_5m;
  diff_15m = add_if (leb now (x.timestamp + 900)) x.difficulty t.diff_15m;
  diff_1h = add_if (leb now (x.timestamp + 3600)) x.difficulty t.diff_1h;
})

-- Where `GetBalance` fails.
abbrev or_no_balance : ℕ → Bytes → Option Balance → Balance
or_no_balance now addr none = record {
  miner_addr = addr;
  balance_pending = 0;
  balance_confirmed = 0;
  total_paid = 0;
  last_updated = now;
}
or_no_balance now addr (some b) = b

abbrev pub or_nothing {ℓ} : {A : Type ℓ} → Option (List A) → List A
or_nothing none = []
or_nothing (some xs) = xs

abbrev count_of : Option (List Bytes) → ℕ
count_of none = 0
count_of (some ws) = length ws

pub record AddressInfo : Type 0 where
  pub balance : ℕ
  pub balance_pending : ℕ
  pub paid : ℕ

abbrev address_info : Option Balance → Option AddressInfo
address_info none = none
address_info (some b) = some (record {
  balance = b.balance_confirmed;
  balance_pending = b.balance_pending;
  paid = b.total_paid;
})

-- `GetAddressInfoCompat`
unfoldable pub get_address_info : ℕ → Bytes → M (Option AddressInfo)
get_address_info now addr = get_balance now addr >>= λ b. pure (address_info b)

module _ (fl : Float) (coin : fl.F) where
  open fl use {F, of_nat, mul, div, round, not_finite}

  abbrev pub round3 : F → F
  round3 v = div (round (mul v (of_nat 1000))) (of_nat 1000)

  abbrev round6 : F → F
  round6 v = div (round (mul v (of_nat 1000000))) (of_nat 1000000)

  abbrev pub not_nan : F → F
  not_nan v = if not_finite v then of_nat 0 else v

  -- An amount in coins, for an answer.
  abbrev pub coins : ℕ → F
  coins n = not_nan (round6 (div (of_nat n) coin))

  -- A sum of 0 leaves the rate at 0.
  abbrev pub rate : ℕ → ℕ → F
  rate total seconds = if ltb 0 total then div (of_nat total) (of_nat seconds) else of_nat 0

  pub record WithdrawalView : Type 0 where
    pub tx_id : Bytes
    pub amount : F
    pub time : ℕ

  abbrev withdrawal_view : Withdrawal → WithdrawalView
  withdrawal_view w = record {
    tx_id = w.tx_id;
    amount = div (of_nat w.amount) coin;
    time = w.timestamp;
  }

  pub record MinerStats : Type 0 where
    pub address : Bytes
    pub balance : F
    pub balance_pending : F
    pub paid : F
    pub hashrate_5m : F
    pub hashrate_15m : F
    pub hashrate_1h : F
    pub worker_count : ℕ
    pub last_seen : ℕ
    pub withdrawals : List WithdrawalView

  abbrev pub miner_stats_of :
      ℕ → Bytes → Balance → List Share → Option (List Bytes) → Option (List Withdrawal) → MinerStats
  miner_stats_of now addr b shares ws paid =
      let t = age_totals now shares no_totals in
      record {
        address = addr;
        balance = coins b.balance_confirmed;
        balance_pending = coins b.balance_pending;
        paid = coins b.total_paid;
        hashrate_5m = round (rate t.diff_5m 300);
        hashrate_15m = round (rate t.diff_15m 900);
        hashrate_1h = round (rate t.diff_1h 3600);
        worker_count = count_of ws;
        last_seen = b.last_updated;
        withdrawals = map withdrawal_view (or_nothing paid);
      }

  -- `GetMinerStats`
  unfoldable pub get_miner_stats : ℕ → Bytes → M MinerStats
  get_miner_stats now addr = get_balance now addr >>= λ b.
      get_miner_shares_in_window addr (now - 3600) >>= λ shares.
      get_active_workers addr (now - 3600) >>= λ ws. get_miner_withdrawals addr 10 >>= λ paid.
      pure (miner_stats_of now addr (or_no_balance now addr b) (or_empty shares) ws paid)

  pub record BlockView : Type 0 where
    pub height : ℕ
    pub hash : Bytes
    pub reward : F
    pub timestamp : ℕ
    pub status : BlockStatus

  abbrev block_view : BlockInfo → BlockView
  block_view b = record {
    height = b.height;
    hash = b.hash;
    reward = div (of_nat b.reward_total) coin;
    timestamp = b.timestamp;
    status = b.status;
  }

  abbrev shown : TopMinerApi fl → TopMinerApi fl
  shown m = record m { percentage = round3 m.percentage }

  -- Without the two settings that the answer repeats.
  pub record PoolView : Type 0 where
    pub pool_hashrate : F
    pub connected_miners : ℕ
    pub connected_workers : ℕ
    pub blocks_found : ℕ
    pub recent_blocks : List BlockView
    pub top_miners : List (TopMinerApi fl)
    pub last_update : ℕ

  -- `GetPoolStats`
  unfoldable pub get_pool_stats : ℕ → M PoolView
  get_pool_stats now = get_recent_blocks 10 >>= λ blocks.
      get_top_miners_for_api fl now 10 >>= λ top. get_shares_in_window (now - 300) >>= λ shares.
      get_active_miner_count (now - 600) >>= λ miners.
      get_active_worker_count (now - 600) >>= λ workers. pure (record {
        pool_hashrate = round (hashrate fl 300 (or_empty shares));
        connected_miners = or_zero miners;
        connected_workers = or_zero workers;
        blocks_found = length (or_nothing blocks);
        recent_blocks = map block_view (or_nothing blocks);
        top_miners = map shown (or_nothing top);
        last_update = now;
      })
