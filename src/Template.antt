-- ===== src/Template.antt =====
-- template/template.go: difficulties and the targets that miners get. math/big is exact, so a
-- big.Int is a natural number, and `Bytes` its big-endian bytes without leading zeros.
pub mod Targets
pub mod Hash
use go_pool.Base.{
  ℕ, zero, suc, ◌+◌, ◌-◌, ◌*◌, ◌/◌, ◌%◌, ◌^◌, List, [], ◌∷◌, ◌++◌, Outcome, ok, panic, ltb, ◌==◌,
  if◌then◌else◌, length,
}
use go_pool.Base.Bytes.{Bytes}
use go_pool.Serializer.Encoding.{le_value}
use mathlib.Core.List.{reverse}

-- `big.Int.Bytes`, lowest byte first, with fuel for the number of bytes: 32 for a value below
-- 2^256. `reverse(buf)` of the source turns the big-endian bytes into this order.
unfoldable pub le_digits : ℕ → ℕ → Bytes
le_digits zero n = []
le_digits (suc k) n = let rest = le_digits k (n / 256) in if n == 0 then [] else (n % 256) ∷ rest

-- `for len(buf) < 4 { buf = append(buf, 0) }`, with fuel for the rounds.
unfoldable pub pad_zeros : ℕ → Bytes → Bytes
pad_zeros zero buf = buf
pad_zeros (suc k) buf =
    let more = pad_zeros k (buf ++ (0 ∷ [])) in if ltb (length buf) 4 then more else buf

-- `DiffToShortTarget` before the hex encoding.
unfoldable pub diff_to_short_target : ℕ → Bytes
diff_to_short_target d =
    if d == 0 then 0xff ∷ 0xff ∷ 0xff ∷ 0xff ∷ [] else pad_zeros 4 (le_digits 4 (0xffffffff / d))

unfoldable pub diff_to_target : ℕ → Bytes
diff_to_target d =
    if d == 0
    then 0xff ∷ 0xff ∷ 0xff ∷ 0xff ∷ 0xff ∷ 0xff ∷ 0xff ∷ 0xff ∷ []
    else pad_zeros 4 (le_digits 8 (0xffffffffffffffff / d))

abbrev pub max_target : ℕ
max_target = 2 ^ 256 - 1

abbrev pub short_diff_target : ℕ
short_diff_target = 0xffffffff

abbrev pub mid_diff_target : ℕ
mid_diff_target = 0xffffffffffffffff

-- `HashToDiff`. The reversed hash read as big-endian is the hash read as little-endian. `Int64()`
-- of a big.Int is its low 64 bits, so the first test asks whether those are 0.
unfoldable pub hash_to_diff : Bytes → Outcome ℕ
hash_to_diff hash =
    let diff = le_value hash in
    if diff % 2 ^ 64 == 0
    then ok 0
    else if ltb (max_target / diff) (2 ^ 64)
    then ok (max_target / diff)
    else panic

-- A wrong length is `logger.Fatal`, which ends the process.
unfoldable pub short_diff_to_diff : Bytes → Outcome ℕ
short_diff_to_diff short_diff =
    let diff = le_value short_diff in
    if length short_diff == 4
    then (if diff == 0 then ok 0 else ok (short_diff_target / diff))
    else panic

unfoldable pub mid_diff_to_diff : Bytes → Outcome ℕ
mid_diff_to_diff mid_diff =
    let diff = le_value mid_diff in
    if length mid_diff == 8
    then (if diff == 0 then ok 0 else ok (mid_diff_target / diff))
    else panic
