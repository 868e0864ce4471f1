-- ===== src/Serializer.antt =====
-- serializer/serializer.go and serializer/deserializer.go. A byte slice is a list of numbers; a
-- method returns the new state. `GetCaller` only fills in the text of an error, so the model keeps
-- the reason without the source position.
pub mod Encoding
pub mod RoundTrip
pub mod Reads
pub mod Errors
use Encoding.{
  le_bytes, le_value, uvarint_bytes, append_uvarint, Uvarint, value, short, overflow, uvarint,
}
use go_pool.Base.{
  ℕ, ◌<◌, ◌^◌, Bool, true, false, List, [], ◌∷◌, ◌++◌, Option, none, some, Outcome, ok, panic, ltb,
  leb, ◌==◌, if◌then◌else◌, length, take, drop,
}
use go_pool.Base.Bytes.{Bytes}

pub record Serializer : Type 0 where
  pub data_bytes : Bytes

abbrev pub push : Bytes → Serializer → Serializer
push bs s = record { data_bytes = s.data_bytes ++ bs }

abbrev pub add_uint8 : ℕ → Serializer → Serializer
add_uint8 n = push (n ∷ [])

abbrev pub add_uint16 : ℕ → Serializer → Serializer
add_uint16 n = push (le_bytes 2 n)

abbrev pub add_uint32 : ℕ → Serializer → Serializer
add_uint32 n = push (le_bytes 4 n)

abbrev pub add_uint64 : ℕ → Serializer → Serializer
add_uint64 n = push (le_bytes 8 n)

abbrev pub add_uvarint : ℕ → Serializer → Serializer
add_uvarint n s = record { data_bytes = append_uvarint s.data_bytes n }

-- The length is checked first, and a wrong one panics.
abbrev pub add_fixed_byte_array : Bytes → ℕ → Serializer → Outcome Serializer
add_fixed_byte_array a len s = if length a == len then ok (push a s) else panic

abbrev pub add_byte_slice : Bytes → Serializer → Serializer
add_byte_slice a s = record { data_bytes = append_uvarint s.data_bytes (length a) ++ a }

abbrev pub add_string : Bytes → Serializer → Serializer
add_string a = add_byte_slice a

abbrev pub add_bool : Bool → Serializer → Serializer
add_bool b = push ((if b then 1 else 0) ∷ [])

pub data ReadError : Type 0 where
  invalid_length invalid_uvarint invalid_uvarint_length invalid_binary_length : ReadError
  invalid_boolean : ReadError

-- `Data` and `Error` of the Go struct.
pub record Deserializer : Type 0 where
  pub bytes : Bytes
  pub error : Option ReadError

abbrev pub reader : Bytes → Deserializer
reader bs = record { bytes = bs; error = none }

abbrev pub failed : Deserializer → ReadError → Deserializer
failed d e = record { bytes = d.bytes; error = some e }

abbrev pub advance : Deserializer → ℕ → Deserializer
advance d n = record { bytes = drop n d.bytes; error = d.error }

abbrev pub is_set : Option ReadError → Bool
is_set none = false
is_set (some e) = true

-- The shared shape of the reads of a fixed number of bytes.
abbrev pub read_fixed {ℓ} : {A : Type ℓ} → ℕ → A → (Bytes → A) → Deserializer → A × Deserializer
read_fixed n zero_value f d =
    if is_set d.error
    then (zero_value, d)
    else if ltb (length d.bytes) n
    then (zero_value, failed d invalid_length)
    else (f (take n d.bytes), advance d n)

abbrev pub first_byte : Bytes → ℕ
first_byte [] = 0
first_byte (b ∷ bs) = b

unfoldable pub read_uint8 : Deserializer → ℕ × Deserializer
read_uint8 = read_fixed 1 0 first_byte

unfoldable pub read_uint16 : Deserializer → ℕ × Deserializer
read_uint16 = read_fixed 2 0 le_value

unfoldable pub read_uint32 : Deserializer → ℕ × Deserializer
read_uint32 = read_fixed 4 0 le_value

unfoldable pub read_uint64 : Deserializer → ℕ × Deserializer
read_uint64 = read_fixed 8 0 le_value

-- The callers pass a constant length, so that the length is a natural number.
unfoldable pub read_fixed_byte_array : ℕ → Deserializer → Bytes × Deserializer
read_fixed_byte_array len = read_fixed len [] (λ bs. bs)

-- `x < 0` is the overflow only: a buffer that ends inside the number gives 0 and moves nothing.
unfoldable pub read_uvarint : Deserializer → ℕ × Deserializer
read_uvarint d =
    if is_set d.error
    then (0, d)
    else if ltb (length d.bytes) 1
    then (0, failed d invalid_length)
    else elim (uvarint d.bytes) [
      | value v n ↦ (v, advance d n)
      | short ↦ (0, d)
      | overflow ↦ (0, failed d invalid_uvarint)
    ]

-- The part of `ReadByteSlice` after the length. A length from 2^63 on is negative as an int, so
-- it passes the test, and the slice expression panics.
unfoldable pub slice_of : ℕ → Deserializer → Outcome (Bytes × Deserializer)
slice_of len d =
    if ltb len (2 ^ 63)
    then (if ltb (length d.bytes) len
        then ok ([], failed d invalid_binary_length)
        else ok (take len d.bytes, advance d len))
    else panic

unfoldable pub read_byte_slice : Deserializer → Outcome (Bytes × Deserializer)
read_byte_slice d =
    if is_set d.error
    then ok ([], d)
    else if ltb (length d.bytes) 1
    then ok ([], failed d invalid_length)
    else elim (uvarint d.bytes) [
      | value v n ↦ slice_of v (advance d n)
      | short ↦ slice_of 0 d
      | overflow ↦ ok ([], failed d invalid_uvarint_length)
    ]

abbrev pub read_string : Deserializer → Outcome (Bytes × Deserializer)
read_string = read_byte_slice

abbrev pub bool_of : ℕ → Deserializer → Bool × Deserializer
bool_of b d =
    if b == 1 then (true, d) else if b == 0 then (false, d) else (false, failed d invalid_boolean)

unfoldable pub read_bool : Deserializer → Bool × Deserializer
read_bool d =
    if is_set d.error
    then (false, d)
    else if ltb (length d.bytes) 1
    then (false, failed d invalid_length)
    else bool_of (first_byte d.bytes) (advance d 1)
