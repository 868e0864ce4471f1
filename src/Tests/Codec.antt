-- ===== src/Tests/Codec.antt =====
-- The serializer, the stored records, the difficulties and the addresses, on small inputs.
use go_pool.Base.{ℕ, zero, suc, ◌≡◌, refl, true, [], ◌∷◌, ◌++◌, take}
use go_pool.Base.Bytes.{Bytes}
use go_pool.Address.{
  AddressConfig, decode_base58, decode_block, block_value, block_size, be_bytes, get_checksum,
  base58_lookup, has_prefix, is_address_valid,
}
use go_pool.Address.Valid.{HasForm, is_address_valid_form}

abbrev wallet : Bytes
wallet = b'S' ∷ b'C' ∷ []

abbrev zeros : ℕ → Bytes
zeros zero = []
zeros (suc n) = 0 ∷ zeros n

abbrev pub ones : ℕ → Bytes
ones zero = []
ones (suc n) = b'1' ∷ ones n

abbrev pub no_hash : Bytes → Bytes
no_hash _ = zeros 32

abbrev pub zero_prefix : AddressConfig
zero_prefix = record { addr_prefix = zeros 4; subaddr_prefix = 1 ∷ [] }

pub ones_valid : is_address_valid no_hash zero_prefix (ones 99) ≡ true
unfolding is_address_valid decode_base58 decode_block block_value block_size be_bytes get_checksum
    base58_lookup has_prefix
ones_valid = refl

is_address_valid_form_example :
    (body : Bytes) × (decode_base58 (ones 99) ≡ body ++ take 4 (no_hash body))
    × HasForm zero_prefix body
is_address_valid_form_example = is_address_valid_form no_hash zero_prefix (ones 99) ones_valid
