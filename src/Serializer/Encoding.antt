-- ===== src/Serializer/Encoding.antt =====
-- What serializer/ uses of Go's encoding/binary: little-endian integers and varints.
use go_pool.Base.{
  ℕ, zero, suc, ◌+◌, ◌*◌, ◌/◌, ◌%◌, ◌^◌, ◌<◌, ◌≡◌, refl, ◌&&◌, [], ◌∷◌, ◌++◌, arith, ltb, ◌==◌,
  if◌then◌else◌, length, ap,
}
use go_pool.Base.Bytes.{Bytes}

-- `LittleEndian.AppendUint16`, `32`, `64`: the low `k` bytes, lowest first.
unfoldable pub le_bytes : ℕ → ℕ → Bytes
le_bytes zero n = []
le_bytes (suc k) n = (n % 256) ∷ le_bytes k (n / 256)

-- `LittleEndian.Uint16`, `32`, `64` on a slice of that length.
unfoldable pub le_value : Bytes → ℕ
le_value [] = 0
le_value (b ∷ bs) = b + 256 * le_value bs

-- `AppendUvarint`: seven bits a byte, with the top bit on every byte but the last. A uint64 has
-- at most ten groups, so nine rounds before the last byte are enough.
unfoldable pub uvarint_bytes : ℕ → ℕ → Bytes
uvarint_bytes zero n = (n % 256) ∷ []
uvarint_bytes (suc k) n =
    let rest = uvarint_bytes k (n / 128) in if ltb n 128 then n ∷ [] else (n % 128 + 128) ∷ rest

abbrev pub append_uvarint : Bytes → ℕ → Bytes
append_uvarint buf n = buf ++ uvarint_bytes 9 n

-- The two results of `binary.Uvarint`: a value with the bytes read, 0 bytes read for a buffer that
-- ends inside the number, a negative count for an overflow.
pub data Uvarint : Type 0 where
  value : ℕ → ℕ → Uvarint
  short : Uvarint
  overflow : Uvarint

abbrev add_low : ℕ → Uvarint → Uvarint
add_low b (value v n) = value (b % 128 + 128 * v) (n + 1)
add_low b short = short
add_low b overflow = overflow

-- The loop of `Uvarint` at index `i`.
unfoldable pub uvarint_from : Bytes → ℕ → Uvarint
uvarint_from [] i = short
uvarint_from (b ∷ bs) i =
    let more = add_low b (uvarint_from bs (i + 1)) in
    if i == 10
    then overflow
    else if ltb b 128
    then (if (i == 9) && ltb 1 b then overflow else value b 1)
    else more

unfoldable pub uvarint : Bytes → Uvarint
unfolding uvarint_from
uvarint bs = uvarint_from bs 0

pub length-le_bytes : (k n : ℕ) → length (le_bytes k n) ≡ k
unfolding le_bytes
length-le_bytes zero n = refl
length-le_bytes (suc k) n = ap suc (length-le_bytes k (n / 256))

pub le_value-le_bytes : (k n : ℕ) → n < 256 ^ k → le_value (le_bytes k n) ≡ n
unfolding le_value le_bytes
le_value-le_bytes zero n h = omega arith
le_value-le_bytes (suc k) n h = omega (arith, le_value-le_bytes k (n / 256) (omega arith))

uvarint_from-bytes :
    (k i n : ℕ) (rest : Bytes)
    → i + k ≡ 9
    → n < 2 * 128 ^ k
    → uvarint_from (uvarint_bytes k n ++ rest) i ≡ value n (length (uvarint_bytes k n))
unfolding uvarint_bytes uvarint_from
uvarint_from-bytes zero i n rest e h = ground arith
uvarint_from-bytes (suc k) i n rest e h =
    ground (arith, uvarint_from-bytes k (i + 1) (n / 128) rest (omega arith) (omega arith))

-- `Uvarint` reads back what `AppendUvarint` wrote, whatever follows.
pub uvarint-bytes :
    (n : ℕ) (rest : Bytes)
    → n < 2 ^ 64
    → uvarint (uvarint_bytes 9 n ++ rest) ≡ value n (length (uvarint_bytes 9 n))
unfolding uvarint
uvarint-bytes n rest h = uvarint_from-bytes 9 0 n rest (omega arith) (omega arith)

pub uvarint_bytes_pos : (k n : ℕ) → 0 < length (uvarint_bytes k n)
unfolding uvarint_bytes
uvarint_bytes_pos zero n = omega arith
uvarint_bytes_pos (suc k) n = ground arith
