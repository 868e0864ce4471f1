-- ===== src/Master/Api/Paths.antt =====
-- cmd/master/api.go: the address in the path of a request, and the status of a worker.
use go_pool.Base.{ℕ, ◌+◌, [], ◌∷◌, ltb, if◌then◌else◌, length, take, drop}
use go_pool.Base.Bytes.{Bytes, bytes_eq}

-- `strings.TrimPrefix`
unfoldable pub trim_prefix : Bytes → Bytes → Bytes
trim_prefix prefix path =
    if bytes_eq (take (length prefix) path) prefix then drop (length prefix) path else path

abbrev pub slash : Bytes
slash = b'/' ∷ []

-- `strings.TrimSuffix(path, "/")`
unfoldable pub trim_slash : Bytes → Bytes
trim_slash [] = []
trim_slash (c ∷ cs) = let rest = trim_slash cs in if bytes_eq (c ∷ cs) slash then [] else c ∷ rest

-- "/stats" and "/workers/"
abbrev pub stats_path : Bytes
stats_path = b'/' ∷ (b's' ∷ (b't' ∷ (b'a' ∷ (b't' ∷ (b's' ∷ [])))))

abbrev pub workers_path : Bytes
workers_path = b'/' ∷ (b'w' ∷ (b'o' ∷ (b'r' ∷ (b'k' ∷ (b'e' ∷ (b'r' ∷ (b's' ∷ (b'/' ∷ []))))))))

pub data WorkerStatus : Type 0 where
  active idle offline : WorkerStatus

-- The status of a worker by the time of its last share.
unfoldable pub worker_status : ℕ → ℕ → WorkerStatus
worker_status now last =
    if ltb now (last + 300) then active else if ltb now (last + 600) then idle else offline
