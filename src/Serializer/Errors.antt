-- ===== src/Serializer/Errors.antt =====
-- The error paths of deserializer.go: what a read does after an error, on a buffer that ends inside
-- a varint, and on a length that no int holds.
use go_pool.Base.{
  ℕ, zero, suc, ◌+◌, ◌/◌, ◌%◌, ◌<◌, ◌≤◌, ◌^◌, ◌≡◌, ◌≢◌, ◌↔◌, refl, false, [], ◌∷◌, ◌++◌, some, ok,
  panic, arith, length, length-append, drop-append, length-drop, le→ltb, ltb, inl, inr, Bool-cases,
  ap,
}
use go_pool.Base.Bytes.{Bytes}
use go_pool.Serializer.{
  Deserializer, ReadError, reader, read_uint8, read_uint16, read_uint32, read_uint64,
  read_fixed_byte_array, read_uvarint, read_byte_slice, read_bool, slice_of,
}
use go_pool.Serializer.Encoding.{
  uvarint_bytes, uvarint_from, uvarint, short, uvarint-bytes, uvarint_bytes_pos,
}

-- After an error every read gives the zero value of its type and leaves the deserializer as it is.
pub reads_after_error :
    (d : Deserializer) (e : ReadError) (len : ℕ)
    → d.error ≡ some e
    → (read_uint8 d ≡ (0, d))
      × (read_uint16 d ≡ (0, d))
      × (read_uint32 d ≡ (0, d))
      × (read_uint64 d ≡ (0, d))
      × (read_uvarint d ≡ (0, d))
      × (read_bool d ≡ (false, d))
      × (read_fixed_byte_array len d ≡ ([], d))
      × (read_byte_slice d ≡ ok ([], d))
unfolding read_uint8 read_uint16 read_uint32 read_uint64 read_uvarint read_bool
    read_fixed_byte_array read_byte_slice
reads_after_error d e len h = (rw h, rw h, rw h, rw h, rw h, rw h, rw h, rw h)

pub slice_of_large : (n : ℕ) (d : Deserializer) → 2 ^ 63 ≤ n → slice_of n d ≡ panic
unfolding slice_of
slice_of_large n d h = rw (le→ltb n (2 ^ 63) h)

slice_of_small : (n : ℕ) (d : Deserializer) → n < 2 ^ 63 → slice_of n d ≢ panic
unfolding slice_of
slice_of_small n d h = ground arith

pub read_byte_slice_len :
    (n : ℕ) (rest : Bytes)
    → n < 2 ^ 64
    → read_byte_slice (reader (uvarint_bytes 9 n ++ rest)) ≡ slice_of n (reader rest)
unfolding read_byte_slice
read_byte_slice_len n rest h =
    rw
      (le→ltb (length (uvarint_bytes 9 n ++ rest)) 1
        (omega (arith, length-append (uvarint_bytes 9 n) rest, uvarint_bytes_pos 9 n)))
      (rw (uvarint-bytes n rest h)
        (ap (λ bs. slice_of n (reader bs)) (drop-append (uvarint_bytes 9 n) rest)))

-- Where the buffer begins with a uint64 length, reading a slice panics exactly when the length is
-- 2^63 or more.
pub read_byte_slice_panics :
    (n : ℕ) (rest : Bytes)
    → n < 2 ^ 64
    → (read_byte_slice (reader (uvarint_bytes 9 n ++ rest)) ≡ panic) ↔ (2 ^ 63 ≤ n)
read_byte_slice_panics n rest h = rw (read_byte_slice_len n rest h) (
  (λ p. elim (Bool-cases (ltb n (2 ^ 63))) [
    | inl small ↦ absurd (slice_of_small n (reader rest) (ground arith) p)
    | inr large ↦ ground arith
  ]),
  slice_of_large n (reader rest),
)

append_nonempty : (front back : Bytes) (x : ℕ) → front ++ (x ∷ back) ≢ []
append_nonempty [] back x e = cc
append_nonempty (b ∷ front) back x e = cc

uvarint_from_long :
    (b i : ℕ) (bs : Bytes)
    → 128 ≤ b
    → i < 10
    → uvarint_from bs (i + 1) ≡ short
    → uvarint_from (b ∷ bs) i ≡ short
unfolding uvarint_from
uvarint_from_long b i bs h k e = rw (e, le→ltb b 128 h) (ground arith)

uvarint_from-prefix :
    (k i n x : ℕ) (front back : Bytes)
    → i + k ≡ 9
    → uvarint_bytes k n ≡ front ++ (x ∷ back)
    → uvarint_from front i ≡ short
unfolding uvarint_bytes
uvarint_from-prefix k i n x [] back e h = unfold uvarint_from in refl
uvarint_from-prefix zero i n x (b ∷ []) back e h = cc
uvarint_from-prefix zero i n x (b ∷ (c ∷ front)) back e h = cc
uvarint_from-prefix (suc k) i n x (b ∷ front) back e h = elim (Bool-cases (ltb n 128)) [
  | inl last ↦ ground (arith, append_nonempty front back x)
  | inr more ↦
      let (eb, et) = parts (rw more at h) in
      uvarint_from_long b i front (omega arith) (omega arith)
        (uvarint_from-prefix k (i + 1) (n / 128) x front back (omega arith) et)
]
  where
    parts :
        (n % 128 + 128) ∷ uvarint_bytes k (n / 128) ≡ b ∷ (front ++ (x ∷ back))
        → (n % 128 + 128 ≡ b) × (uvarint_bytes k (n / 128) ≡ front ++ (x ∷ back))
    parts p = (cc, cc)

-- A buffer that ends inside a varint of a uint64, but is not empty, is read as 0: no error is set
-- and nothing is consumed.
pub read_uvarint_truncated :
    (n x : ℕ) (front back : Bytes)
    → n < 2 ^ 64
    → uvarint_bytes 9 n ≡ front ++ (x ∷ back)
    → front ≢ []
    → read_uvarint (reader front) ≡ (0, reader front)
unfolding read_uvarint uvarint
read_uvarint_truncated n x [] back h e ne = absurd (ne refl)
read_uvarint_truncated n x (b ∷ front) back h e ne =
    rw (le→ltb (suc (length front)) 1 (omega arith))
      (rw (uvarint_from-prefix 9 0 n x (b ∷ front) back (omega arith) e))

-- A read never makes the rest longer.
pub length-read_uint8 : (d : Deserializer) → length (read_uint8 d).1.bytes ≤ length d.bytes
unfolding read_uint8
length-read_uint8 d = ground (arith, length-drop 1 d.bytes)

pub length-read_uvarint : (d : Deserializer) → length (read_uvarint d).1.bytes ≤ length d.bytes
unfolding read_uvarint
length-read_uvarint d = grind (arith, length-drop)
