-- ===== src/Address/Valid.antt =====
-- What `IsAddressValid` accepts.
use go_pool.Base.{
  ◌+◌, ◌-◌, ◌≡◌, true, ◌++◌, arith, length, take, drop, take-append-drop, Bool-cases, inl, inr, ◌⊎◌,
  length-drop, ap, ◌∙◌, sym,
}
use go_pool.Base.Bytes.{Bytes, bytes_eq, bytes_eq→eq}
use go_pool.Address.{AddressConfig, decode_base58, get_checksum, has_prefix, is_address_valid}

-- The bytes are one of the two configured prefixes with 64 bytes behind it.
abbrev pub HasForm : AddressConfig → Bytes → Type 0
HasForm cfg bs =
    ((key : Bytes) × (bs ≡ cfg.addr_prefix ++ key) × (length key ≡ 64))
    ⊎ ((key : Bytes) × (bs ≡ cfg.subaddr_prefix ++ key) × (length key ≡ 64))

split_prefix :
    (p bs : Bytes)
    → bytes_eq (take (length p) bs) p ≡ true
    → length bs ≡ length p + 64
    → (key : Bytes) × (bs ≡ p ++ key) × (length key ≡ 64)
split_prefix p bs e h = (
  drop (length p) bs,
  sym (take-append-drop (length p) bs) ∙ ap (λ l. l ++ drop (length p) bs) (bytes_eq→eq _ _ e),
  omega (arith, length-drop (length p) bs),
)

has_prefix_form : (cfg : AddressConfig) (bs : Bytes) → has_prefix cfg bs ≡ true → HasForm cfg bs
unfolding has_prefix
has_prefix_form cfg bs h =
    elim (Bool-cases (bytes_eq (take (length cfg.addr_prefix) bs) cfg.addr_prefix)) [
      | inl main ↦ inl (split_prefix cfg.addr_prefix bs main (ground arith))
      | inr other ↦
          elim (Bool-cases (bytes_eq (take (length cfg.subaddr_prefix) bs) cfg.subaddr_prefix)) [
            | inl sub ↦ inr (split_prefix cfg.subaddr_prefix bs sub (ground arith))
            | inr neither ↦ absurd (ground arith)
          ]
    ]

-- An accepted address decodes to one of the configured prefixes, 64 bytes of keys, and the first
-- four bytes of the hash of these.
pub is_address_valid_form :
    (keccak : Bytes → Bytes) (cfg : AddressConfig) (addr : Bytes)
    → is_address_valid keccak cfg addr ≡ true
    → (body : Bytes) × (decode_base58 addr ≡ body ++ take 4 (keccak body)) × HasForm cfg body
unfolding is_address_valid get_checksum
is_address_valid_form keccak cfg addr h =
    let decoded : Bytes = decode_base58 addr in
    let body : Bytes = take (length decoded - 4) decoded in
    let checksum : Bytes = drop (length decoded - 4) decoded in
    let same : bytes_eq (take 4 (keccak body)) checksum ≡ true = ground arith in
    (
      body,
      sym (take-append-drop (length decoded - 4) decoded)
          ∙ ap (λ l. body ++ l) (sym (bytes_eq→eq _ _ same)),
      has_prefix_form cfg body (ground arith),
    )
