-- ===== src/Miner/Conns.antt =====
-- stratum/server.go: the connections of the stratum server. Sockets and the score, which is only
-- written, are left out.
use go_pool.Base.{ℕ, Bool, List, [], ◌∷◌, ◌++◌, ◌==◌, if◌then◌else◌}
use go_pool.Base.Bytes.{Bytes}

pub record ConnJob : Type 0 where
  pub blob : Bytes
  pub hashing_blob : Bytes
  pub diff : ℕ
  pub job_id : Bytes
  pub nicehash_byte : ℕ

-- `F` is float64; `p2pool_diff` is the `JobDiff` of the P2Pool client.
pub record Connection (F : Type 0) : Type 0 where
  pub id : ℕ
  pub is_tls : Bool
  pub current_job : ConnJob
  pub last_job : ConnJob
  pub next_diff : F
  pub last_share : ℕ
  pub nicehash : Bool
  pub p2pool_diff : ℕ

module _ {F : Type 0} where
  -- `Kick`: the connections that stay. The closed ones are those with the id.
  unfoldable pub kick : ℕ → List (Connection F) → List (Connection F)
  kick id [] = []
  kick id (v ∷ conns) = let rest = kick id conns in if v.id == id then rest else v ∷ rest

  -- `handleConnection`
  unfoldable pub handle_connection : Connection F → List (Connection F) → List (Connection F)
  handle_connection conn conns = conns ++ (conn ∷ [])
