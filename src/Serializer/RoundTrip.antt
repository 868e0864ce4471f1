-- ===== src/Serializer/RoundTrip.antt =====
-- Each `Add` method of serializer.go against the `Read` method of deserializer.go that undoes it.
use go_pool.Base.{
  ℕ, ◌^◌, ◌<◌, ◌≡◌, Bool, true, false, [], ◌∷◌, ◌++◌, ok, arith, length, length-append, take-append,
  drop-append, append_assoc, append-nil, sym, lt→ltb, le→ltb, subst, ◌∙◌, ap, if◌then◌else◌,
}
use go_pool.Base.Bytes.{Bytes}
use go_pool.Serializer.{
  read_uint8, read_uint16, read_uint32, read_uint64, read_fixed, read_uvarint, read_byte_slice,
  read_bool, read_fixed_byte_array, slice_of, reader,
}
use go_pool.Serializer.Encoding.{
  le_bytes, le_value, length-le_bytes, le_value-le_bytes, uvarint_bytes, uvarint-bytes,
  uvarint_bytes_pos,
}

-- One byte.
pub read_uint8-cons : (n : ℕ) (rest : Bytes) → read_uint8 (reader (n ∷ rest)) ≡ (n, reader rest)
unfolding read_uint8
read_uint8-cons n rest = ground arith

-- The shared shape of the fixed reads: all of `a` is taken, and the rest is left.
read_fixed-append {ℓ} :
    {A : Type ℓ} (z : A) (f : Bytes → A) (a rest : Bytes)
    → read_fixed (length a) z f (reader (a ++ rest)) ≡ (f a, reader rest)
read_fixed-append z f a rest =
    rw (le→ltb (length (a ++ rest)) (length a) (omega (arith, length-append a rest)))
      (rw (take-append a rest, drop-append a rest))

-- A fixed array of the length that is asked for.
pub read_fixed_byte_array-append :
    (a rest : Bytes) {len : ℕ}
    → length a ≡ len
    → read_fixed_byte_array len (reader (a ++ rest)) ≡ (a, reader rest)
unfolding read_fixed_byte_array
read_fixed_byte_array-append a rest h = rw (← h) (read_fixed-append [] (λ bs. bs) a rest)

-- A little-endian integer of `k` bytes.
read_le-append :
    (k n : ℕ) (rest : Bytes)
    → n < 256 ^ k
    → read_fixed k 0 le_value (reader (le_bytes k n ++ rest)) ≡ (n, reader rest)
read_le-append k n rest h =
    subst
      (λ m.
        read_fixed m 0 le_value (reader (le_bytes k n ++ rest))
        ≡ (le_value (le_bytes k n), reader rest))
      (length-le_bytes k n) (read_fixed-append 0 le_value (le_bytes k n) rest)
    ∙ ap (λ v. (v, reader rest)) (le_value-le_bytes k n h)

pub read_uint16-append :
    (n : ℕ) (rest : Bytes)
    → n < 2 ^ 16
    → read_uint16 (reader (le_bytes 2 n ++ rest)) ≡ (n, reader rest)
unfolding read_uint16
read_uint16-append n rest h = read_le-append 2 n rest (omega arith)

pub read_uint32-append :
    (n : ℕ) (rest : Bytes)
    → n < 2 ^ 32
    → read_uint32 (reader (le_bytes 4 n ++ rest)) ≡ (n, reader rest)
unfolding read_uint32
read_uint32-append n rest h = read_le-append 4 n rest (omega arith)

pub read_uint64-append :
    (n : ℕ) (rest : Bytes)
    → n < 2 ^ 64
    → read_uint64 (reader (le_bytes 8 n ++ rest)) ≡ (n, reader rest)
unfolding read_uint64
read_uint64-append n rest h = read_le-append 8 n rest (omega arith)

-- A varint.
pub read_uvarint-append :
    (n : ℕ) (rest : Bytes)
    → n < 2 ^ 64
    → read_uvarint (reader (uvarint_bytes 9 n ++ rest)) ≡ (n, reader rest)
unfolding read_uvarint
read_uvarint-append n rest h =
    rw
      (le→ltb (length (uvarint_bytes 9 n ++ rest)) 1
        (omega (arith, length-append (uvarint_bytes 9 n) rest, uvarint_bytes_pos 9 n)))
      (rw (uvarint-bytes n rest h) (rw (drop-append (uvarint_bytes 9 n) rest)))

pub read_uvarint-last :
    (n : ℕ) → n < 2 ^ 64 → read_uvarint (reader (uvarint_bytes 9 n)) ≡ (n, reader [])
read_uvarint-last n h =
    ap (λ bs. read_uvarint (reader bs)) (sym (append-nil (uvarint_bytes 9 n)))
    ∙ read_uvarint-append n [] h

pub read_fixed_byte_array-last :
    (a : Bytes) {len : ℕ} → length a ≡ len → read_fixed_byte_array len (reader a) ≡ (a, reader [])
read_fixed_byte_array-last a {len} h =
    ap (λ bs. read_fixed_byte_array len (reader bs)) (sym (append-nil a))
    ∙ read_fixed_byte_array-append a [] h

slice_of-append :
    (a rest : Bytes)
    → length a < 2 ^ 63
    → slice_of (length a) (reader (a ++ rest)) ≡ ok (a, reader rest)
unfolding slice_of
slice_of-append a rest h = rw (lt→ltb (length a) (2 ^ 63) h) (
    rw (le→ltb (length (a ++ rest)) (length a) (omega (arith, length-append a rest)))
      (rw (take-append a rest, drop-append a rest)))

pub read_byte_slice_prefix :
    (a rest : Bytes)
    → length a < 2 ^ 63
    → read_byte_slice (reader (uvarint_bytes 9 (length a) ++ (a ++ rest))) ≡ ok (a, reader rest)
unfolding read_byte_slice
read_byte_slice_prefix a rest h =
    let len : Bytes = uvarint_bytes 9 (length a) in
    rw
      (le→ltb (length (len ++ (a ++ rest))) 1
        (omega (arith, length-append len (a ++ rest), uvarint_bytes_pos 9 (length a))))
      (rw (uvarint-bytes (length a) (a ++ rest) (omega arith)) (
        ap (λ bs. slice_of (length a) (reader bs)) (drop-append len (a ++ rest))
        ∙ slice_of-append a rest h))

-- A byte slice behind its length.
pub read_byte_slice-append :
    (a rest : Bytes)
    → length a < 2 ^ 63
    → read_byte_slice (reader ((uvarint_bytes 9 (length a) ++ a) ++ rest)) ≡ ok (a, reader rest)
read_byte_slice-append a rest h =
    ap (λ bs. read_byte_slice (reader bs)) (append_assoc (uvarint_bytes 9 (length a)) a rest)
    ∙ read_byte_slice_prefix a rest h

pub read_bool-cons :
    (b : Bool) (rest : Bytes) → read_bool (reader ((if b then 1 else 0) ∷ rest)) ≡ (b, reader rest)
unfolding read_bool
read_bool-cons true rest = ground arith
read_bool-cons false rest = ground arith
