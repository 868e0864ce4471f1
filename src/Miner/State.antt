-- ===== src/Miner/State.antt =====
-- cmd/slave/conn.go, and `Infos` of slave.go: the state that a handler of a connection reads and
-- writes. The mutexes are part of it.
use go_pool.Base.{ℕ, Bool, false, ◌||◌, List, [], ◌∷◌, ◌++◌, Option, if◌then◌else◌}
use go_pool.Base.Bytes.{Bytes}
use go_pool.Base.Assoc.{Assoc}
use go_pool.Float.{Float}
use go_pool.Slave.{ShareCache, cache_share_with_worker}
use go_pool.Penalty.{PenaltyBox, PenaltyConfig}
use go_pool.Miner.Conns.{Connection}
use go_pool.Miner.Queue.{CalcPowParams, VerifyQueue}
use go_pool.Miner.Checks.{Reply}

-- `Infos` of slave.go.
pub record Infos : Type 0 where
  pub height : ℕ
  pub future_height : ℕ
  pub seed_hash : Bytes
  pub difficulty : ℕ
  pub block_reward : ℕ
  pub major_version : ℕ

-- The loop reads the next request, or it ends, or it waits for a mutex.
pub data Flow : Type 0 where
  next stopped waits : Flow

-- What a handler reads and writes: its connection, what the slave shares among them, and the outgoing
-- replies and packets.
pub record Slave (F : Type 0) : Type 0 where
  pub conn : Connection F
  pub conn_locked : Bool
  pub info : Infos
  pub info_locked : Bool
  pub box : PenaltyBox
  pub shares : Assoc Bytes ShareCache
  pub queue : VerifyQueue
  pub replies : List Reply
  pub packets : List Bytes
  pub is_kicked : Bool

-- The two random tests: whether the share pays the slave's fee, and whether a share without TLS stays
-- the miner's.
pub record Draws : Type 0 where
  pub pays_fee : Bool
  pub keeps : Bool

-- The times of the call: nanoseconds, and the milliseconds of the two readings for the difficulty.
pub record Times : Type 0 where
  pub now : ℕ
  pub now_ms : ℕ
  pub later_ms : ℕ

-- The daemon: the hash of a blob, the id of a submitted block, and the hash of a block by its
-- height, where `none` is an error; and whether the queue's insert goes through.
pub record Daemon : Type 0 where
  pub calc_pow : CalcPowParams → Option Bytes
  pub submit_block : Bytes → Option Bytes
  pub block_hash : ℕ → Option Bytes
  pub queue_works : Bool
  -- Whether the P2Pool ever answers `SubmitShare`, and whether the channel `sigc` has room for the
  -- signal of a found block: the code waits for both without a limit.
  pub p2pool_replies : Bool
  pub signal_taken : Bool

module _ {F : Type 0} where
  abbrev pub reply : Reply → Slave F → Slave F
  reply r m = record m { replies = m.replies ++ (r ∷ []) }

  abbrev pub unlock_conn : Slave F → Slave F
  unlock_conn m = record m { conn_locked = false }

  abbrev pub unlock_info : Slave F → Slave F
  unlock_info m = record m { info_locked = false }

  -- `SendShareWithWorker`, by the random tests.
  unfoldable pub send_share : Bytes → Draws → Bytes → Bytes → ℕ → Slave F → Slave F
  send_share fee_address draws addr worker_id diff m =
      let fee : Assoc Bytes ShareCache =
        cache_share_with_worker fee_address (b'f' ∷ (b'e' ∷ (b'e' ∷ []))) diff m.shares in
      let own : Assoc Bytes ShareCache = cache_share_with_worker addr worker_id diff m.shares in
      record m {
        shares = if draws.pays_fee then fee else if m.conn.is_tls || draws.keeps then own else fee;
      }

module _ (fl : Float) where
  open fl use {F, of_nat, add, mul, div}

  pub record SubmitConfig : Type 0 where
    pub use_p2pool : Bool
    pub fee_address : Bytes
    pub share_target_time : ℕ
    pub penalty : PenaltyConfig fl
