-- ===== src/Miner/Text.antt =====
-- What cmd/slave/conn.go and util/util.go use of strings, strconv and encoding/hex.
use go_pool.Base.{
  ℕ, zero, suc, ◌+◌, ◌-◌, ◌*◌, ◌^◌, Bool, true, false, not, ◌&&◌, ◌||◌, List, [], ◌∷◌, Option, none,
  some, ltb, leb, ◌==◌, if◌then◌else◌, length, drop,
}
use go_pool.Base.Bytes.{Bytes}

-- `strings.Contains` for a text of one byte.
abbrev pub contains_byte : ℕ → Bytes → Bool
contains_byte c [] = false
contains_byte c (x ∷ xs) = (x == c) || contains_byte c xs

abbrev pub onto_head : ℕ → List Bytes → List Bytes
onto_head x [] = (x ∷ []) ∷ []
onto_head x (part ∷ parts) = (x ∷ part) ∷ parts

-- `strings.Split` at one byte.
unfoldable pub split_byte : ℕ → Bytes → List Bytes
split_byte c [] = [] ∷ []
split_byte c (x ∷ xs) = let rest = split_byte c xs in if x == c then [] ∷ rest else onto_head x rest

abbrev pub is_nil : Bytes → Bool
is_nil [] = true
is_nil (x ∷ xs) = false

-- `strings.LastIndex` of one byte, as what stands before and behind it.
unfoldable pub cut_last : ℕ → Bytes → Option (Bytes × Bytes)
cut_last c [] = none
cut_last c (x ∷ xs) = elim (cut_last c xs) [
  | some (front, back) ↦ some (x ∷ front, back)
  | none ↦ if x == c then some ([], xs) else none
]

abbrev pub starts_with : Bytes → Bytes → Bool
starts_with [] s = true
starts_with (p ∷ ps) [] = false
starts_with (p ∷ ps) (x ∷ xs) = (x == p) && starts_with ps xs

-- What stands behind the first occurrence of a text that is not empty.
unfoldable pub after_first : Bytes → Bytes → Option Bytes
after_first pattern [] = none
after_first pattern (x ∷ xs) =
    let rest = after_first pattern xs in
    if starts_with pattern (x ∷ xs) then some (drop (length pattern) (x ∷ xs)) else rest

-- What stands before the first occurrence, or everything.
unfoldable pub before_first : Bytes → Bytes → Bytes
before_first pattern [] = []
before_first pattern (x ∷ xs) =
    let rest = before_first pattern xs in if starts_with pattern (x ∷ xs) then [] else x ∷ rest

abbrev wide_space : ℕ → ℕ → ℕ → Bool
wide_space a b c =
    if a == 0xe1
    then (b == 0x9a) && (c == 0x80)
    else if a == 0xe2
    then (if b == 0x80
        then (leb 0x80 c && leb c 0x8a) || ((c == 0xa8) || ((c == 0xa9) || (c == 0xaf)))
        else (b == 0x81) && (c == 0x9f))
    else (a == 0xe3) && ((b == 0x80) && (c == 0x80))

abbrev pub narrow_space : ℕ → Bool
narrow_space a = (leb 9 a && leb a 13) || (a == b' ')

abbrev two_byte_space : ℕ → ℕ → Bool
two_byte_space a b = (a == 0xc2) && ((b == 0x85) || (b == 0xa0))

-- How many bytes of white space, as `unicode.IsSpace` has it, a text in UTF-8 begins with: one
-- character's.
unfoldable pub space_width : Bytes → ℕ
space_width [] = 0
space_width (a ∷ []) = if narrow_space a then 1 else 0
space_width (a ∷ (b ∷ [])) = if narrow_space a then 1 else if two_byte_space a b then 2 else 0
space_width (a ∷ (b ∷ (c ∷ s))) =
    if narrow_space a
    then 1
    else if two_byte_space a b
    then 2
    else if wide_space a b c
    then 3
    else 0

abbrev is_zero : ℕ → Bool
is_zero zero = true
is_zero (suc n) = false

-- The text without the white space in front; `skip` bytes of the last character are still to go.
unfoldable pub trim_spaces : ℕ → Bytes → Bytes
trim_spaces skip [] = []
trim_spaces (suc skip) (x ∷ xs) = trim_spaces skip xs
trim_spaces zero (x ∷ xs) =
    let width = space_width (x ∷ xs) in
    let rest = trim_spaces (width - 1) xs in if is_zero width then x ∷ xs else rest

-- The text up to the first white space.
unfoldable pub until_space : Bytes → Bytes
until_space [] = []
until_space (x ∷ xs) =
    let rest = until_space xs in if is_zero (space_width (x ∷ xs)) then x ∷ rest else []

-- `strings.Fields(s)[0]`, which is missing in a text of white space only.
unfoldable pub first_field : Bytes → Option Bytes
first_field s = elim (trim_spaces 0 s) [ [] ↦ none | x ∷ xs ↦ some (until_space (x ∷ xs)) ]

abbrev pub is_digit : ℕ → Bool
is_digit c = leb b'0' c && leb c b'9'

unfoldable pub digits_value : ℕ → Bytes → Option ℕ
digits_value acc [] = some acc
digits_value acc (c ∷ cs) =
    let rest = digits_value (10 * acc + (c - b'0')) cs in if is_digit c then rest else none

abbrev u64_or_error : Option ℕ → Option ℕ
u64_or_error none = none
u64_or_error (some n) = if ltb n (2 ^ 64) then some n else none

-- `strconv.ParseUint(s, 10, 64)`
unfoldable pub parse_uint : Bytes → Option ℕ
parse_uint [] = none
parse_uint (c ∷ cs) = u64_or_error (digits_value 0 (c ∷ cs))

-- `IsHex` of util.go: lower case only.
unfoldable pub is_hex : Bytes → Bool
is_hex [] = true
is_hex (c ∷ cs) =
    let rest = is_hex cs in
    if not (is_digit c) && not (leb b'a' c && leb c b'f') then false else rest

-- The value of a hexadecimal digit in either case.
unfoldable pub hex_value : ℕ → Option ℕ
hex_value c =
    if is_digit c
    then some (c - b'0')
    else if leb b'a' c && leb c b'f'
    then some (c - 87)
    else if leb b'A' c && leb c b'F'
    then some (c - 55)
    else none

abbrev hex_pair : Option ℕ → Option ℕ → Option Bytes → Option Bytes
hex_pair (some a) (some b) (some bs) = some ((16 * a + b) ∷ bs)
hex_pair _ _ _ = none

-- `hex.DecodeString`
unfoldable pub hex_decode : Bytes → Option Bytes
hex_decode [] = some []
hex_decode (a ∷ []) = none
hex_decode (a ∷ (b ∷ s)) = hex_pair (hex_value a) (hex_value b) (hex_decode s)
