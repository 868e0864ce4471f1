-- ===== src/Address.antt =====
-- address/addr.go and address/base58.go: the base58 text of an address, in blocks of 11 characters
-- for 8 bytes, and its check. Keccak-256 is not part of the repository and is an argument.
pub mod Decode
pub mod Valid
use go_pool.Base.{
  ℕ, zero, suc, ◌+◌, ◌-◌, ◌*◌, ◌/◌, ◌%◌, ◌^◌, ◌<◌, ◌≡◌, Bool, true, false, ◌&&◌, ◌||◌, List, [],
  ◌∷◌, ◌++◌, Option, none, some, ltb, leb, ◌==◌, if◌then◌else◌, length, take, drop,
}
use go_pool.Base.Bytes.{Bytes, bytes_eq}

-- `base58Lookup`, with the 0 that Go gives for a missing key.
unfoldable pub base58_lookup : ℕ → ℕ
base58_lookup c =
    if leb b'1' c && leb c b'9'
    then c - b'1'
    else if leb b'A' c && leb c b'H'
    then c - b'A' + 9
    else if leb b'J' c && leb c b'N'
    then c - b'J' + 17
    else if leb b'P' c && leb c b'Z'
    then c - b'P' + 22
    else if leb b'a' c && leb c b'k'
    then c - b'a' + 33
    else if leb b'm' c && leb c b'z'
    then c - b'm' + 44
    else 0

-- The test at the head of the loop of `decodeBlock`.
abbrev pub is_base58 : ℕ → Bool
is_base58 c = (c == b'1') || (if base58_lookup c == 0 then false else true)

-- The loop from the last character on, with what is left of the text from its front: the sum, or
-- `none` at a character that is not base58.
unfoldable pub block_value : Bytes → Option ℕ
block_value [] = some 0
block_value (c ∷ cs) = elim (block_value cs) [
  | none ↦ none
  | some v ↦ if is_base58 c then some (base58_lookup c * 58 ^ length cs + v) else none
]

-- `encodedBlockSizes`: how many bytes a block of so many characters stands for.
unfoldable pub block_size : ℕ → Option ℕ
block_size n =
    if n == 0
    then some 0
    else if n == 2
    then some 1
    else if n == 3
    then some 2
    else if n == 5
    then some 3
    else if n == 6
    then some 4
    else if n == 7
    then some 5
    else if n == 9
    then some 6
    else if n == 10
    then some 7
    else if n == 11
    then some 8
    else none

-- The low `k` bytes, highest first: the last `k` bytes of nine zeros and `bigResult.Bytes()`.
unfoldable pub be_bytes : ℕ → ℕ → Bytes
be_bytes zero n = []
be_bytes (suc k) n = be_bytes k (n / 256) ++ ((n % 256) ∷ [])

-- `decodeBlock`; nil on a character or a length that does not fit.
unfoldable pub decode_block : Bytes → Bytes
decode_block encoded = elim (block_value encoded) [
  | none ↦ []
  | some v ↦ elim (block_size (length encoded)) [ none ↦ [] | some k ↦ be_bytes k v ]
]

unfoldable pub decode_full : ℕ → Bytes → Bytes
decode_full zero text = []
decode_full (suc n) text = decode_block (take 11 text) ++ decode_full n (drop 11 text)

unfoldable pub decode_base58 : Bytes → Bytes
unfolding decode_full
decode_base58 text =
    let full = length text / 11 in
    let head = decode_full full text in
    if length text % 11 == 0 then head else head ++ decode_block (drop (full * 11) text)

-- The prefixes have at most 65 bytes; a longer one would be cut beyond the decoded bytes.
pub record AddressConfig : Type 0 where
  pub addr_prefix : Bytes
  pub subaddr_prefix : Bytes

-- The two prefix tests of `IsAddressValid`, on the bytes in front of the checksum.
unfoldable pub has_prefix : AddressConfig → Bytes → Bool
has_prefix cfg bs =
    if bytes_eq (take (length cfg.addr_prefix) bs) cfg.addr_prefix
    then length bs == length cfg.addr_prefix + 64
    else if bytes_eq (take (length cfg.subaddr_prefix) bs) cfg.subaddr_prefix
    then length bs == length cfg.subaddr_prefix + 64
    else false

module _ (keccak : Bytes → Bytes) where
  unfoldable pub get_checksum : Bytes → Bytes
  get_checksum bs = take 4 (keccak bs)

  unfoldable pub is_address_valid : AddressConfig → Bytes → Bool
  is_address_valid cfg addr =
      let decoded = decode_base58 addr in
      let body = take (length decoded - 4) decoded in
      let checksum = drop (length decoded - 4) decoded in
      if ltb (length decoded) 69
      then false
      else bytes_eq (get_checksum body) checksum && has_prefix cfg body
