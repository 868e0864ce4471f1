-- ===== src/Address/Decode.antt =====
-- The lengths that base58.go decodes to.
use go_pool.Base.{
  ℕ, zero, suc, ◌+◌, ◌*◌, ◌/◌, ◌%◌, ◌^◌, ◌≤◌, ◌≡◌, refl, true, [], ◌∷◌, some, arith, length, take,
  drop, length-append, length-drop, All, inl, inr, ◌==◌, Bool-cases,
}
use go_pool.Base.Bytes.{Bytes}
use go_pool.Address.{
  is_base58, base58_lookup, block_value, block_size, be_bytes, decode_block, decode_full,
  decode_base58,
}

abbrev pub IsBase58 : Bytes → Type 0
IsBase58 = All (λ c. is_base58 c ≡ true)

pub length-be_bytes : (k n : ℕ) → length (be_bytes k n) ≡ k
unfolding be_bytes
length-be_bytes zero n = refl
length-be_bytes (suc k) n =
    omega
      (arith, length-append (be_bytes k (n / 256)) ((n % 256) ∷ []), length-be_bytes k (n / 256))

block_value_total : (cs : Bytes) → IsBase58 cs → (v : ℕ) × (block_value cs ≡ some v)
unfolding block_value
block_value_total [] h = (0, refl)
block_value_total (c ∷ cs) h =
    let (v, e) = block_value_total cs h.1 in (base58_lookup c * 58 ^ length cs + v, rw (e, h.0))

length-decode_block :
    (cs : Bytes) (k : ℕ)
    → IsBase58 cs
    → block_size (length cs) ≡ some k
    → length (decode_block cs) ≡ k
unfolding decode_block
length-decode_block cs k h e =
    let (v, ev) = block_value_total cs h in rw (ev, e, decode_block) (length-be_bytes k v)

All-take : (n : ℕ) (cs : Bytes) → IsBase58 cs → IsBase58 (take n cs)
All-take zero cs h = tt
All-take (suc n) [] h = tt
All-take (suc n) (c ∷ cs) h = (h.0, All-take n cs h.1)

All-drop : (n : ℕ) (cs : Bytes) → IsBase58 cs → IsBase58 (drop n cs)
All-drop zero cs h = h
All-drop (suc n) [] h = tt
All-drop (suc n) (c ∷ cs) h = All-drop n cs h.1

length-take_le : (n : ℕ) (cs : Bytes) → n ≤ length cs → length (take n cs) ≡ n
length-take_le zero cs h = refl
length-take_le (suc n) [] h = absurd (omega arith)
length-take_le (suc n) (c ∷ cs) h = omega (arith, length-take_le n cs (omega arith))

length-decode_full :
    (n : ℕ) (cs : Bytes) → IsBase58 cs → n * 11 ≤ length cs → length (decode_full n cs) ≡ n * 8
unfolding decode_full
length-decode_full zero cs h b = omega arith
length-decode_full (suc n) cs h b = omega (
  arith,
  length-append (decode_block (take 11 cs)) (decode_full n (drop 11 cs)),
  length-decode_block (take 11 cs) 8 (All-take 11 cs h)
      (eleven (length-take_le 11 cs (omega arith))),
  length-decode_full n (drop 11 cs) (All-drop 11 cs h) (omega (arith, length-drop 11 cs)),
)
  where
    eleven : length (take 11 cs) ≡ 11 → block_size (length (take 11 cs)) ≡ some 8
    eleven e = rw e (unfold block_size in refl)

-- A text of base58 characters whose last block has one of the listed sizes decodes to eight bytes
-- for each full block and to the bytes of that size for the last.
pub length-decode_base58 :
    (text : Bytes) (k : ℕ)
    → IsBase58 text
    → block_size (length text % 11) ≡ some k
    → length (decode_base58 text) ≡ length text / 11 * 8 + k
unfolding decode_base58
length-decode_base58 text k h e = elim (Bool-cases (length text % 11 == 0)) [
  | inl whole ↦ rw whole (omega (arith, full, nothing (ground arith)))
  | inr more ↦ rw more (
      omega (
        arith,
        full,
        length-append (decode_full (length text / 11) text)
            (decode_block (drop (length text / 11 * 11) text)),
        length-decode_block (drop (length text / 11 * 11) text) k
            (All-drop (length text / 11 * 11) text h) (rw rest_length e),
      ))
]
  where
    full : length (decode_full (length text / 11) text) ≡ length text / 11 * 8
    full = length-decode_full (length text / 11) text h (omega arith)

    rest_length : length (drop (length text / 11 * 11) text) ≡ length text % 11
    rest_length = omega (arith, length-drop (length text / 11 * 11) text)

    nothing : length text % 11 ≡ 0 → k ≡ 0
    nothing z = unfold block_size in ground arith
