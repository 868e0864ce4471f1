-- ===== src/Template/Hash.antt =====
-- When `HashToDiff` panics, and what it returns otherwise.
use go_pool.Base.{ℕ, ◌/◌, ◌%◌, ◌^◌, ◌<◌, ◌≤◌, ◌≡◌, ◌≢◌, ◌↔◌, ◌⊎◌, ok, panic, arith}
use go_pool.Base.Bytes.{Bytes}
use go_pool.Serializer.Encoding.{le_value}
use go_pool.Template.{hash_to_diff, max_target}

quotient_small : (v : ℕ) → 2 ^ 192 ≤ v → max_target / v < 2 ^ 64
quotient_small v h = grind arith

quotient_large : (v : ℕ) → 0 < v → v < 2 ^ 192 → 2 ^ 64 ≤ max_target / v
quotient_large v p h = grind arith

-- `HashToDiff` panics exactly on the hashes whose value is below 2^192 and no multiple of 2^64.
pub hash_to_diff_panics :
    (hash : Bytes)
    → (hash_to_diff hash ≡ panic) ↔ ((le_value hash % 2 ^ 64 ≢ 0) × (le_value hash < 2 ^ 192))
unfolding hash_to_diff
hash_to_diff_panics hash =
    let v : ℕ = le_value hash in
    (ground (arith, quotient_small v), ground (arith, quotient_large v))

-- Where it returns, the result is a uint64: 0 if the low 64 bits are 0, and else the quotient of the
-- maximal target, for a hash value from 2^192 on.
pub hash_to_diff_returns :
    (hash : Bytes) {d : ℕ}
    → hash_to_diff hash ≡ ok d
    → (d < 2 ^ 64)
      × ((le_value hash % 2 ^ 64 ≡ 0) × (d ≡ 0)
          ⊎ (2 ^ 192 ≤ le_value hash) × (d ≡ max_target / le_value hash))
unfolding hash_to_diff
hash_to_diff_returns hash h = let v : ℕ = le_value hash in ground (arith, quotient_large v)
