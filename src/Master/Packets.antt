-- ===== src/Master/Packets.antt =====
-- cmd/master/handler.go: what `OnMessage` reads from a message.
use go_pool.Base.{ℕ, ◌+◌, ◌/◌, ◌%◌, ◌^◌, Bool, [], ◌∷◌, Outcome, ok, bind, ltb, ◌==◌, if◌then◌else◌}
use go_pool.Base.Bytes.{Bytes}
use go_pool.Serializer.{
  reader, read_uint8, read_uvarint, read_string, read_fixed_byte_array, is_set,
}
use go_pool.Serializer.Reads.{Read, plain, pure, ◌>>=◌}

-- What a message asks for; `ignored` is every case in which the handler only logs.
pub data Packet : Type 0 where
  share : ℕ → Bytes → Bytes → ℕ → Packet
  block : ℕ → ℕ → Bytes → Packet
  stats : ℕ → Packet
  p2pool_share : ℕ → Packet
  ignored : Packet

abbrev hex_digit : ℕ → ℕ
hex_digit n = if ltb n 10 then b'0' + n else n + 87

-- `hex.EncodeToString`
unfoldable pub hex_encode : Bytes → Bytes
hex_encode [] = []
hex_encode (b ∷ bs) = hex_digit (b / 16) ∷ (hex_digit (b % 16) ∷ hex_encode bs)

-- `if d.Error != nil { return }` behind the reads of a packet.
unfoldable pub unless_error : Packet → Read Packet
unless_error p d = ok (if is_set d.error then ignored else p, d)

unfoldable pub read_share_packet : Read Packet
read_share_packet = do
  num_shares ← plain read_uvarint
  wallet ← read_string
  worker_id ← read_string
  diff ← plain read_uvarint
  unless_error (share (num_shares % 2 ^ 32) wallet worker_id diff)

unfoldable pub read_block_packet : Read Packet
read_block_packet = do
  height ← plain read_uvarint
  reward ← plain read_uvarint
  hash ← plain (read_fixed_byte_array 32)
  unless_error (block height reward (hex_encode hash))

unfoldable pub read_stats_packet : Read Packet
read_stats_packet = do conns ← plain read_uvarint; unless_error (stats (conns % 2 ^ 32))

-- The height is not checked for an error: it is only logged.
unfoldable pub read_p2pool_packet : Read Packet
read_p2pool_packet = do height ← plain read_uvarint; pure (p2pool_share height)

-- The switch on the packet's number.
unfoldable pub read_packet : Bool → ℕ → Read Packet
read_packet use_p2pool n =
    if n == 0
    then read_share_packet
    else if n == 1
    then (if use_p2pool then pure ignored else read_block_packet)
    else if n == 2
    then read_stats_packet
    else if n == 3
    then (if use_p2pool then read_p2pool_packet else pure ignored)
    else pure ignored

unfoldable pub parse_message : Bool → Bytes → Outcome Packet
parse_message use_p2pool msg =
    bind ((plain read_uint8 >>= read_packet use_p2pool) (reader msg)) (λ r. ok r.0)
