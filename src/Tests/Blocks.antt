-- ===== src/Tests/Blocks.antt =====
-- The master's ledger, its windows, transfers and payments, on small inputs.
use go_pool.Base.{
  ℕ, ◌+◌, ◌-◌, ◌*◌, ◌/◌, ◌<◌, ◌≤◌, ◌≡◌, ◌≢◌, ◌⊎◌, refl, true, false, List, [], ◌∷◌, ◌++◌, none,
  some, ok, arith, drop, All, ltb, leb, ◌==◌,
}
use go_pool.Base.Bytes.{Bytes}
use go_pool.Base.Assoc.{lookup, bytes_keys}
use go_pool.Float.{Float, ℤ}
use go_pool.Slave.{share_packet}
use go_pool.Ledger.Store.{Share, Tables, Schema, done, blocked, live, shipped}
use go_pool.Ledger.Shares.{newest_first, place}
use go_pool.Ledger.Shares.Window.{NoneNewer}
use go_pool.Master.Handler.{Config, Master, on_share_found, on_message}
use go_pool.Master.Credit.{total_diff, on_share_found-shipped, flushed_run_credit}
use go_pool.Master.Pplns.{pplns_shares, miner_diffs, sum_diff, or_zero}
use go_pool.Master.Rewards.{diff_of, sum_values, miner_diffs_credit}
use go_pool.Master.Window.{pplns_shares_oldest}
use go_pool.Master.Transfers.{
  TransferInfo, process_transfer, init_transfer_tracking, update_pending_bals,
}
use go_pool.Master.Deadlock.{process_transfer_blocks}
use go_pool.Master.Settled.{process_transfer_unshared}
use go_pool.Master.Skipped.{HasHeight, failing, update_pending_bals_loses}

-- Floats that are whole numbers.
abbrev whole : Float
whole = record {
  F = ℕ;
  of_nat = λ n. n;
  to_nat = λ n. n;
  add = λ a b. a + b;
  sub = λ a b. a - b;
  mul = λ a b. a * b;
  div = λ a b. a / b;
  lt = λ a b. ltb a b;
  le = λ a b. leb a b;
  eq = λ a b. a == b;
  to_int = λ n. ℤ.pos n;
  round = λ n. n;
  not_finite = λ _. false;
  bits = λ n. n;
  of_bits = λ n. n;
}

abbrev no_hash : Bytes → Bytes
no_hash _ = []

abbrev cfg : Config
cfg = record {
  use_p2pool = false;
  fee_address = b'F' ∷ [];
  addresses = record { addr_prefix = 1 ∷ []; subaddr_prefix = 2 ∷ [] };
}

abbrev pub wallet : Bytes
wallet = b'S' ∷ []

abbrev pub rig : Bytes
rig = b'r' ∷ []

abbrev pub empty_tables : Tables
empty_tables = record {
  blocks_found = [];
  processed_transfers = [];
  shares = [];
  distributions = [];
  payments = [];
  next_payment = 1;
  balances = [];
  pool_fees = [];
  blockchain_info = record { height = 9; block_reward = 600; difficulty = 1000 };
  last_processed_height = 0;
  pool_stats = [];
  miner_hashrates = [];
}

-- A database of which every table has what the code expects.
abbrev pub full : Schema
full = record {
  share_without_block = true;
  payment_updated_at = true;
  has_distributions = true;
  has_pool_fees = true;
  has_miner_history = true;
  has_worker_history = true;
}

abbrev idle : Master
idle = record { num_conns = []; db = live full empty_tables; waiting = [] }

flushed_run_credit_example :
    (xs : List Share) × (on_message no_hash cfg 5 1
        (share_packet 2 wallet rig 700)
        (record idle { db = live full empty_tables })
      ≡ ok (done tt, record idle { db = live full (record empty_tables { shares = xs }) }))
    × (total_diff xs ≡ 0 + 2 * 700)
flushed_run_credit_example =
    flushed_run_credit no_hash cfg 5 1 wallet rig (300 ∷ 400 ∷ []) full empty_tables idle refl
      (omega arith) (omega arith) (omega arith) (omega arith)

on_share_found-shipped_example :
    on_share_found no_hash cfg 5 wallet 300 2 rig (live shipped empty_tables)
    ≡ (done tt, live shipped empty_tables)
on_share_found-shipped_example = on_share_found-shipped no_hash cfg 5 wallet 300 2 rig empty_tables

abbrev share_at : ℕ → ℕ → Share
share_at time diff = record {
  block_height = none;
  miner_addr = wallet;
  worker_id = rig;
  difficulty = diff;
  timestamp = time;
}

abbrev recorded : List Share
recorded = share_at 1 10 ∷ share_at 2 20 ∷ share_at 3 30 ∷ []

pplns_shares_oldest_example :
    (left paid : List Share) × (newest_first recorded ≡ left ++ paid)
    × (pplns_shares 25 (newest_first recorded) ≡ paid)
    × ((25 ≤ total_diff paid) ⊎ (left ≡ []))
    × (total_diff (drop 1 paid) < 25)
    × All (λ x. NoneNewer x paid) left
pplns_shares_oldest_example = pplns_shares_oldest 25 recorded (omega arith) (omega arith)

miner_diffs_credit_example :
    (or_zero (lookup wallet (miner_diffs recorded [])) ≡ diff_of wallet recorded)
    × (sum_values (miner_diffs recorded []) ≡ sum_diff recorded 0)
miner_diffs_credit_example = miner_diffs_credit recorded wallet (omega arith)

recorded_some : newest_first recorded ≢ []
unfolding newest_first place
recorded_some h = cc

nothing_recorded : newest_first [] ≡ []
unfolding newest_first
nothing_recorded = refl

abbrev transfer : TransferInfo
transfer = record { tx_id = b't' ∷ []; height = 100; amount = 600; timestamp = 4 }

abbrev with_shares : Tables
with_shares = record empty_tables { shares = recorded }

process_transfer_blocks_example :
    (t' : Tables) × (process_transfer whole wallet 1 5 transfer (live full with_shares)
      ≡ (blocked, record (live full t') { taken = true }))
process_transfer_blocks_example =
    process_transfer_blocks whole wallet 1 full with_shares 5 transfer (omega arith) (omega arith)
      refl recorded_some

process_transfer_unshared_example :
    (t' : Tables) × (process_transfer whole wallet 1 5 transfer (live full empty_tables)
      ≡ (done (some tt), live full t'))
    × (t'.payments ≡ [])
    × (process_transfer whole wallet 1 6 transfer (live full t') ≡ (done (some tt), live full t'))
process_transfer_unshared_example =
    process_transfer_unshared whole wallet 1 full empty_tables 5 6 transfer (omega arith)
      (omega arith) refl refl nothing_recorded

update_pending_bals_loses_example :
    (top : ℕ) × (update_pending_bals whole wallet 1 5
        (some (transfer ∷ []))
        7
        (failing (2 * 1) full with_shares)
      ≡ (done (top + 1), live full (record with_shares { last_processed_height = top })))
    × (init_transfer_tracking (live full (record with_shares { last_processed_height = top }))
        ≡ (done (top + 1), live full (record with_shares { last_processed_height = top })))
    × HasHeight top (transfer ∷ [])
    × All (λ v. v.height ≤ top) (transfer ∷ [])
update_pending_bals_loses_example =
    update_pending_bals_loses whole wallet 1 5 7 transfer [] full with_shares (omega arith, tt)
