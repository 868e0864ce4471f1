-- ===== src/Master/Handler.antt =====
-- cmd/master/handler.go, blockfound.go and the share functions of master.go: what a packet does.
use go_pool.Base.{
  ℕ, zero, suc, ◌+◌, ◌%◌, ◌^◌, Bool, List, [], ◌∷◌, ◌++◌, Option, none, some, Outcome, ok, panic,
  if◌then◌else◌,
}
use go_pool.Base.Bytes.{Bytes}
use go_pool.Base.Assoc.{Assoc, insert, erase, nat_keys}
use go_pool.Address.{AddressConfig, is_address_valid}
use go_pool.Ledger.Store.{Share, BlockFound, BlockStatus, Db, Halt, done, blocked, M, ◌>>=◌}
use go_pool.Ledger.Shares.{add_share}
use go_pool.Ledger.Blocks.{add_block_found}
use go_pool.Master.Packets.{Packet, share, block, stats, p2pool_share, ignored, parse_message}

pub record Config : Type 0 where
  pub use_p2pool : Bool
  pub fee_address : Bytes
  pub addresses : AddressConfig

-- `numConns`, the database, and the goroutines that wait to distribute a block's reward.
pub record Master : Type 0 where
  pub num_conns : Assoc ℕ ℕ
  pub db : Db
  pub waiting : List (ℕ × ℕ)

-- The loop of `OnShareFound`; an error of `AddShare` is logged, and the loop goes on.
unfoldable pub add_shares : ℕ → Share → M (Unit {0})
add_shares zero x db = (done tt, db)
add_shares (suc n) x db = (add_share x >>= λ _. add_shares n x) db

abbrev pub found_share : ℕ → Bytes → Bytes → ℕ → Share
found_share now wallet worker_id diff = record {
  block_height = none;
  miner_addr = wallet;
  worker_id = worker_id;
  difficulty = diff;
  timestamp = now;
}

-- `SubmitShare` of master.go.
unfoldable pub submit_share : ℕ → Bytes → Bytes → ℕ → M (Unit {0})
submit_share now addr worker diff = add_shares 1 (found_share now addr worker diff)

abbrev pub found_block : ℕ → ℕ → ℕ → Bytes → BlockFound
found_block now height reward hash = record {
  height = height;
  hash = hash;
  reward_total = reward;
  timestamp = now;
  found_at = now;
  processed_at = none;
  status = BlockStatus.pending;
}

abbrev pub add_stats : ℕ → ℕ → Master → Master
add_stats conn_id conns m = record m { num_conns = insert conn_id conns m.num_conns }

abbrev pub with_db {ℓ} : {A : Type ℓ} → Master → Halt A × Db → Halt A × Master
with_db m (r, db) = (r, record m { db = db })

-- A block that could not be stored is not distributed.
abbrev pub schedule : ℕ → ℕ → Halt (Option (Unit {0})) × Master → Halt (Unit {0}) × Master
schedule height reward (done none, m) = (done tt, m)
schedule height reward (done (some _), m) =
    (done tt, record m { waiting = m.waiting ++ ((height, reward) ∷ []) })
schedule height reward (blocked, m) = (blocked, m)

-- `OnBlockFound` and `BlockFound`.
unfoldable pub on_block_found : ℕ → ℕ → ℕ → Bytes → Master → Halt (Unit {0}) × Master
on_block_found now height reward hash m =
    schedule height reward
      (with_db m (add_block_found now (found_block now height reward hash) m.db))

-- `GetTotalWorkers`: a uint32 sum.
unfoldable pub get_total_workers : Assoc ℕ ℕ → ℕ
get_total_workers [] = 0
get_total_workers ((_, v) ∷ m) = (v + get_total_workers m) % 2 ^ 32

-- The cleanup of `HandleSlave` when the connection ends.
unfoldable pub cleanup : ℕ → Master → Master
cleanup conn_id m = record m { num_conns = erase conn_id m.num_conns }

module _ (keccak : Bytes → Bytes) (cfg : Config) where
  -- A share for an invalid address goes to the pool's fee address.
  unfoldable pub on_share_found : ℕ → Bytes → ℕ → ℕ → Bytes → M (Unit {0})
  on_share_found now wallet diff num_shares worker_id =
      let addr = if is_address_valid keccak cfg.addresses wallet then wallet else cfg.fee_address in
      add_shares num_shares (found_share now addr worker_id diff)

  unfoldable pub apply_packet : ℕ → ℕ → Packet → Master → Halt (Unit {0}) × Master
  unfolding on_share_found on_block_found
  apply_packet now conn_id (share num_shares wallet worker_id diff) m =
      with_db m (on_share_found now wallet diff num_shares worker_id m.db)
  apply_packet now conn_id (block height reward hash) m = on_block_found now height reward hash m
  apply_packet now conn_id (stats conns) m = (done tt, add_stats conn_id conns m)
  apply_packet now conn_id (p2pool_share height) m = (done tt, m)
  apply_packet now conn_id ignored m = (done tt, m)

  -- `OnMessage`.
  unfoldable pub on_message : ℕ → ℕ → Bytes → Master → Outcome (Halt (Unit {0}) × Master)
  on_message now conn_id msg m = elim (parse_message cfg.use_p2pool msg) [
    | ok p ↦ ok (apply_packet now conn_id p m)
    | panic ↦ panic
  ]
