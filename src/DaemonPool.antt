-- ===== src/DaemonPool.antt =====
-- cmd/slave/daemon_pool.go: the round robin over connections to the daemon. A connection is its
-- number and the time of its creation; opening one is an argument that says whether it works.
pub mod Retry
use go_pool.Base.{
  ℕ, zero, suc, ◌+◌, ◌-◌, ◌%◌, Bool, true, false, ◌||◌, List, [], ◌∷◌, ◌++◌, Option, none, some,
  ltb, ◌==◌, if◌then◌else◌, length, get_elem?, set,
}
use go_pool.Base.Bytes.{Bytes}
use go_pool.Miner.Text.{after_first, is_nil}

-- `client` is the daemon client behind the connection.
pub record PooledConnection : Type 0 where
  pub client : ℕ
  pub created_at : ℕ

pub record DaemonPool : Type 0 where
  pub connections : List PooledConnection
  pub size : ℕ
  pub max_age : ℕ
  pub current : ℕ

-- The connections of a new pool; an attempt that fails is skipped.
unfoldable pub populate : List (Option PooledConnection) → List PooledConnection
populate [] = []
populate (none ∷ attempts) = populate attempts
populate (some conn ∷ attempts) = conn ∷ populate attempts

abbrev pub is_empty : List PooledConnection → Bool
is_empty [] = true
is_empty (x ∷ xs) = false

abbrev pub five_minutes : ℕ
five_minutes = 300000000000

-- `NewDaemonPool`, by the attempts to connect, of which the first `size` count. A size or an age that
-- is not positive is 0 here.
abbrev attempts_of : ℕ → (ℕ → Option PooledConnection) → List (Option PooledConnection)
attempts_of zero connect = []
attempts_of (suc n) connect = attempts_of n connect ++ (connect n ∷ [])

unfoldable pub new_daemon_pool : ℕ → ℕ → (ℕ → Option PooledConnection) → Option DaemonPool
new_daemon_pool size max_age connect =
    let size' = if size == 0 then 5 else size in
    let connections = populate (attempts_of size' connect) in
    if is_empty connections
    then none
    else some (record {
      connections = connections;
      size = size';
      max_age = if max_age == 0 then five_minutes else max_age;
      current = 0;
    })

-- The connection at the current place, which is replaced when it is too old and a new one opens.
abbrev refresh :
    ℕ → Option PooledConnection → PooledConnection → DaemonPool → PooledConnection × DaemonPool
refresh now none conn p = (conn, p)
refresh now (some fresh) conn p =
    if ltb p.max_age (now - conn.created_at)
    then (fresh, record p { connections = set p.connections p.current fresh })
    else (conn, p)

abbrev pub use_current :
    ℕ → Option PooledConnection → DaemonPool → Option (PooledConnection × DaemonPool)
use_current now connect p = elim (get_elem? p.connections p.current) [
  | none ↦ none
  | some conn ↦ some (refresh now connect conn p)
]

-- `Get`; nothing from an empty pool.
unfoldable pub get :
    ℕ → Option PooledConnection → DaemonPool → Option (PooledConnection × DaemonPool)
get now connect p =
    if is_empty p.connections
    then none
    else use_current now connect (record p { current = (p.current + 1) % length p.connections })

-- One tick of `recycleLoop`, with its index.
unfoldable pub recycle : Option PooledConnection → ℕ → DaemonPool → ℕ × DaemonPool
recycle connect index p =
    let replaced : DaemonPool = elim connect [
      | none ↦ p
      | some conn ↦ record p { connections = set p.connections index conn }
    ] in
    if is_empty p.connections then (index, p) else ((index + 1) % length p.connections, replaced)

-- `Close`
unfoldable pub close : DaemonPool → DaemonPool
close p = record p { connections = [] }

abbrev contains : Bytes → Bytes → Bool
contains pattern text = elim (after_first pattern text) [ none ↦ false | some rest ↦ true ]

abbrev pub connection_text : Bytes
connection_text =
    b'c' ∷ (b'o' ∷ (b'n' ∷ (b'n' ∷ (b'e' ∷ (b'c' ∷ (b't' ∷ (b'i' ∷ (b'o' ∷ (b'n' ∷ [])))))))))

abbrev timeout_text : Bytes
timeout_text = b't' ∷ (b'i' ∷ (b'm' ∷ (b'e' ∷ (b'o' ∷ (b'u' ∷ (b't' ∷ []))))))

abbrev refused_text : Bytes
refused_text = b'r' ∷ (b'e' ∷ (b'f' ∷ (b'u' ∷ (b's' ∷ (b'e' ∷ (b'd' ∷ []))))))

abbrev eof_text : Bytes
eof_text = b'E' ∷ (b'O' ∷ (b'F' ∷ []))

-- `isConnectionError`, of the text of an error.
unfoldable pub is_connection_error : Bytes → Bool
is_connection_error text =
    contains connection_text text
    || (contains timeout_text text || (contains refused_text text || contains eof_text text))

-- The end of a call: it worked, it ended with an error that is no connection's, the pool was empty, or
-- all attempts failed.
pub data Ending : Type 0 where
  succeeded : Ending
  gave_error : Bytes → Ending
  no_connections all_failed : Ending

-- The call of the function with a client: `none` is success. Each attempt has its number.
abbrev pub Call : Type 0
Call = ℕ → ℕ → Option Bytes

-- The times and the new connections, by the number of the attempt.
abbrev pub Openings : Type 0
Openings = ℕ → ℕ × Option PooledConnection

-- What the other callers, which share the pool, and the recycling make of it before the attempt of
-- that number: its mutex is free between two attempts.
abbrev pub Meanwhile : Type 0
Meanwhile = ℕ → DaemonPool → DaemonPool

-- The attempts left, and the number of the next one.
unfoldable pub attempts :
    Call → Openings → Meanwhile → ℕ → ℕ → DaemonPool → Ending × (ℕ × DaemonPool)
attempts fn open_ meanwhile zero i p = (all_failed, (i, p))
attempts fn open_ meanwhile (suc n) i p = elim (get (open_ i).0 (open_ i).1 (meanwhile i p)) [
  | none ↦ (no_connections, (i, meanwhile i p))
  | some (conn, p') ↦ elim (fn i conn.client) [
    | none ↦ (succeeded, (suc i, p'))
    | some err ↦
        let again : Ending × (ℕ × DaemonPool) = attempts fn open_ meanwhile n (suc i) p' in
        if is_connection_error err then again else (gave_error err, (suc i, p'))
  ]
]

-- `ExecuteWithRetry`, with the number of calls it made.
unfoldable pub execute_with_retry :
    Call → Openings → Meanwhile → DaemonPool → Ending × (ℕ × DaemonPool)
execute_with_retry fn open_ meanwhile p = attempts fn open_ meanwhile (length p.connections + 1) 0 p
