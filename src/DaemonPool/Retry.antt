-- ===== src/DaemonPool/Retry.antt =====
-- The failover of cmd/slave/daemon_pool.go: how often `ExecuteWithRetry` calls, and whom it reaches.
use go_pool.Base.{
  ℕ, zero, suc, ◌+◌, ◌-◌, ◌%◌, ◌≤◌, ◌<◌, ◌≡◌, ◌≢◌, ◌⊎◌, inl, inr, refl, ap, ◌∙◌, true, false, List,
  [], ◌∷◌, none, some, length, get_elem?, Bool-cases, Option-cases, arith,
}
use go_pool.Base.Bytes.{Bytes}
use go_pool.DaemonPool.{
  is_empty, use_current, DaemonPool, PooledConnection, Call, Openings, Meanwhile, succeeded, get,
  attempts, execute_with_retry, is_connection_error,
}
use native.Mathlib.Nat.{mod-eq_of_lt, mod_self}

-- The next place of the round robin.
next_place :
    (n c : ℕ) → c < n → ((c + 1 < n) × ((c + 1) % n ≡ c + 1)) ⊎ ((c + 1 ≡ n) × ((c + 1) % n ≡ 0))
next_place n c h =
    let near : (c + 1 < n) ⊎ (c + 1 ≡ n) = ground arith in
    elim near [
      | inl below ↦ inl (below, mod-eq_of_lt below)
      | inr e ↦ inr (e, ap (λ k. k % n) e ∙ mod_self n)
    ]

is_empty_no :
    (xs : List PooledConnection) (k : ℕ) (conn : PooledConnection)
    → get_elem? xs k ≡ some conn
    → is_empty xs ≡ false
is_empty_no [] k conn h = cc
is_empty_no (x ∷ xs) k conn h = refl

abbrev moved : DaemonPool → DaemonPool
moved p = record p { current = (p.current + 1) % length p.connections }

use_current-at :
    (now : ℕ) (p : DaemonPool) (conn : PooledConnection)
    → get_elem? p.connections p.current ≡ some conn
    → use_current now none p ≡ some (conn, p)
use_current-at now p conn h = rw (h, use_current) refl

get-at :
    (now : ℕ) (p : DaemonPool) (conn : PooledConnection)
    → get_elem? p.connections ((p.current + 1) % length p.connections) ≡ some conn
    → get now none p ≡ some (conn, moved p)
unfolding get
get-at now p conn h =
    rw (is_empty_no p.connections ((p.current + 1) % length p.connections) conn h)
      (use_current-at now (moved p) conn h)

get_elem?-in :
    (xs : List PooledConnection) (k : ℕ)
    → k < length xs
    → (x : PooledConnection) × (get_elem? xs k ≡ some x)
get_elem?-in [] k h = absurd (omega (arith, h))
get_elem?-in (x ∷ xs) zero h = (x, refl)
get_elem?-in (x ∷ xs) (suc k) h = get_elem?-in xs k (omega (arith, h))

-- `d` more places behind the next one lead from the place `c` to `j`.
abbrev IsAhead : ℕ → ℕ → ℕ → ℕ → Type 0
IsAhead n c d j = (c + 1 + d ≡ j) ⊎ (c + 1 + d ≡ j + n)

hop :
    (n c d j : ℕ)
    → c < n
    → j < n
    → d < n
    → IsAhead n c d j
    → ((c + 1) % n ≡ j)
      ⊎ ((d' : ℕ) × ((d ≡ suc d')
            × (((c + 1) % n ≢ j) × (((c + 1) % n < n) × IsAhead n ((c + 1) % n) d' j))))
hop n c zero j c_in j_in d_in far = inl (elim (next_place n c c_in) [
  | inl (b, e) ↦ ground (arith, far)
  | inr (b, e) ↦ ground (arith, far)
])
hop n c (suc d) j c_in j_in d_in far = inr (
  d,
  (
    refl,
    elim (next_place n c c_in) [
      | inl (b, e) ↦ rw e (ground arith)
      | inr (b, e) ↦ rw e (ground arith)
    ],
  ),
)

module _ (fn : Call) (open_ : Openings) (meanwhile : Meanwhile) where
  attempts_calls : (n i : ℕ) (p : DaemonPool) → (attempts fn open_ meanwhile n i p).1.0 ≤ i + n
  unfolding attempts
  attempts_calls zero i p = omega arith
  attempts_calls (suc n) i p = elim (Option-cases (get (open_ i).0 (open_ i).1 (meanwhile i p))) [
    | inl e ↦ rw (e, attempts) (omega arith)
    | inr ((conn, p'), e) ↦ elim (Option-cases (fn i conn.client)) [
      | inl f ↦ rw (e, attempts) (rw f (omega arith))
      | inr (err, f) ↦ elim (Bool-cases (is_connection_error err)) [
        | inl g ↦ rw (e, attempts) (rw f (rw g (omega (arith, attempts_calls n (suc i) p'))))
        | inr g ↦ rw (e, attempts) (rw f (rw g (omega arith)))
      ]
    ]
  ]

  -- A call with the retries ends, after at most one attempt more than the pool has connections,
  -- whatever the others do with the pool between the attempts.
  pub execute_with_retry_calls :
      (p : DaemonPool) → (execute_with_retry fn open_ meanwhile p).1.0 ≤ length p.connections + 1
  unfolding execute_with_retry
  execute_with_retry_calls p = omega (arith, attempts_calls (length p.connections + 1) 0 p)

  module _ (conns : List PooledConnection) (j : ℕ) (good : PooledConnection)
      (at_j : get_elem? conns j ≡ some good) (no_new : (i : ℕ) → (open_ i).1 ≡ none)
      (alone : (i : ℕ) (p : DaemonPool) → meanwhile i p ≡ p)
      (answers : (i : ℕ) → fn i good.client ≡ none)
      (others : (i k : ℕ) (conn : PooledConnection)
        → get_elem? conns k ≡ some conn
        → k ≢ j
        → (err : Bytes) × ((fn i conn.client ≡ some err) × (is_connection_error err ≡ true))) where
    reached :
        (i : ℕ) (p : DaemonPool) (k : ℕ) (conn : PooledConnection)
        → p.connections ≡ conns
        → (p.current + 1) % length conns ≡ k
        → get_elem? conns k ≡ some conn
        → get (open_ i).0 (open_ i).1 p ≡ some (conn, moved p)
    reached i p k conn same here at_k =
        rw (no_new i) (get-at (open_ i).0 p conn (rw (same, here) at_k))

    attempts_reach :
        (n d i : ℕ) (p : DaemonPool)
        → p.connections ≡ conns
        → p.current < length conns
        → j < length conns
        → d < length conns
        → d < n
        → (p.current + 1 + d ≡ j) ⊎ (p.current + 1 + d ≡ j + length conns)
        → (attempts fn open_ meanwhile n i p).0 ≡ succeeded
    unfolding attempts
    attempts_reach zero d i p same c j_in d_in fuel far = absurd (omega (arith, fuel))
    attempts_reach (suc n) d i p same c j_in d_in fuel far =
        elim (hop (length conns) p.current d j c j_in d_in far) [
          | inl here ↦
              rw (alone i p, reached i p j good same here at_j, attempts) (rw (answers i) refl)
          | inr (d', (e, (apart, (c', far')))) ↦
              let k = (p.current + 1) % length conns in
              let (conn, at_k) = get_elem?-in conns k c' in
              let (err, (f, g)) = others i k conn at_k apart in
              rw (alone i p, reached i p k conn same refl at_k, attempts)
                (rw f (
                  rw g (
                    attempts_reach n d' (suc i) (moved p) same (rw same c') j_in
                      (omega (arith, e, d_in)) (omega (arith, e, fuel)) (rw same far'))))
        ]

ahead : (n c j : ℕ) → c < n → j < n → (d : ℕ) × ((d < n) × IsAhead n c d j)
ahead n c j c_in j_in =
    let side : (c < j) ⊎ (j ≤ c) = ground arith in
    elim side [
      | inl h ↦ (j - (c + 1), (omega arith, inl (omega arith)))
      | inr h ↦ (j + n - (c + 1), (omega arith, inr (omega arith)))
    ]

-- The failover of a caller that has the pool to itself reaches a connection that works: where nobody
-- else uses or recycles the pool between the attempts, no new connection opens, the one at the place
-- `j` answers every call and every other one fails with a connection error, the call succeeds.
pub execute_with_retry_reaches :
    (fn : Call) (open_ : Openings) (meanwhile : Meanwhile) (p : DaemonPool) (j : ℕ)
    (good : PooledConnection)
    → get_elem? p.connections j ≡ some good
    → p.current < length p.connections
    → j < length p.connections
    → ((i : ℕ) → (open_ i).1 ≡ none)
    → ((i : ℕ) (q : DaemonPool) → meanwhile i q ≡ q)
    → ((i : ℕ) → fn i good.client ≡ none)
    → ((i k : ℕ) (conn : PooledConnection)
        → get_elem? p.connections k ≡ some conn
        → k ≢ j
        → (err : Bytes) × ((fn i conn.client ≡ some err) × (is_connection_error err ≡ true)))
    → (execute_with_retry fn open_ meanwhile p).0 ≡ succeeded
unfolding execute_with_retry
execute_with_retry_reaches fn open_ meanwhile p j good at_j c_in j_in no_new alone answers others =
    let (d, (d_in, far)) = ahead (length p.connections) p.current j c_in j_in in
    attempts_reach fn open_ meanwhile p.connections j good at_j no_new alone answers others
      (length p.connections + 1) d 0 p refl c_in j_in d_in (omega (arith, d_in)) far
