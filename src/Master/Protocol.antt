-- ===== src/Master/Protocol.antt =====
-- The packets that slave/slaveClient.go and slave/slaveQueue.go send are the packets that
-- cmd/master/handler.go reads.
use go_pool.Base.{
  ℕ, ◌<◌, ◌≤◌, ◌%◌, ◌^◌, ◌≡◌, refl, Bool, true, false, [], ◌∷◌, ◌++◌, ok, panic, bind,
  if◌then◌else◌, arith, length, append_assoc, ap, ◌∙◌,
}
use native.Mathlib.Nat.{mod-eq_of_lt}
use go_pool.Base.Bytes.{Bytes}
use go_pool.Serializer.{
  reader, read_uint8, read_uvarint, read_string, read_fixed_byte_array, Deserializer,
}
use go_pool.Serializer.Encoding.{uvarint_bytes}
use go_pool.Serializer.Reads.{plain, >>=-ok, >>=-panic}
use go_pool.Serializer.RoundTrip.{
  read_uint8-cons, read_uvarint-append, read_byte_slice_prefix, read_uvarint-last,
  read_fixed_byte_array-last,
}
use go_pool.Serializer.Errors.{slice_of_large, read_byte_slice_len}
use go_pool.Slave.{share_packet, block_packet, stats_packet, share_found_packet}
use go_pool.Master.Packets.{
  Packet, share, block, stats, p2pool_share, ignored, hex_encode, unless_error, read_share_packet,
  read_block_packet, read_stats_packet, read_p2pool_packet, read_packet, parse_message,
}

parse_message-cons :
    (p2p : Bool) (n : ℕ) (rest : Bytes) {p : Packet} {d : Deserializer}
    → read_packet p2p n (reader rest) ≡ ok (p, d)
    → parse_message p2p (n ∷ rest) ≡ ok p
unfolding parse_message
parse_message-cons p2p n rest e =
    ap (λ x. bind x (λ r. ok r.0))
      (>>=-ok (plain read_uint8) (read_packet p2p) (ap ok (read_uint8-cons n rest)) e)

-- A share packet is read as the share that was sent: a count below 2^32, a wallet and a worker id
-- shorter than 2^63 bytes, and a uint64 difficulty.
pub parse_message-share_packet :
    (p2p : Bool) (count : ℕ) (wallet worker_id : Bytes) (diff : ℕ)
    → count < 2 ^ 32
    → length wallet < 2 ^ 63
    → length worker_id < 2 ^ 63
    → diff < 2 ^ 64
    → parse_message p2p (share_packet count wallet worker_id diff)
      ≡ ok (share count wallet worker_id diff)
unfolding share_packet read_packet read_share_packet unless_error
parse_message-share_packet p2p count wallet worker_id diff hc hw hi hd = simp append_assoc (
    parse_message-cons p2p 0 _ (
      >>=-ok (plain read_uvarint) _ (ap ok (read_uvarint-append count _ (omega arith))) (
        >>=-ok read_string _ (read_byte_slice_prefix wallet _ hw) (
          >>=-ok read_string _ (read_byte_slice_prefix worker_id _ hi) (
            >>=-ok (plain read_uvarint) _ (ap ok (read_uvarint-last diff hd))
              (ap (λ n. ok (share n wallet worker_id diff, reader [])) (mod-eq_of_lt hc)))))))

-- A block packet is built without a panic for a hash of 32 bytes and uint64 numbers. A pool without
-- P2Pool reads it as the block that was sent, with the hash in hexadecimal, and a pool with P2Pool
-- ignores it.
pub parse_message-block_packet :
    (p2p : Bool) (height reward : ℕ) (hash : Bytes)
    → height < 2 ^ 64
    → reward < 2 ^ 64
    → length hash ≡ 32
    → bind (block_packet height reward hash) (parse_message p2p)
      ≡ ok (if p2p then ignored else block height reward (hex_encode hash))
unfolding block_packet read_packet read_block_packet unless_error
parse_message-block_packet true height reward hash hh hr hl = rw hl (
    parse_message-cons true 1 _
      {d = reader ((uvarint_bytes 9 height ++ uvarint_bytes 9 reward) ++ hash)} refl)
parse_message-block_packet false height reward hash hh hr hl = rw hl (
    simp append_assoc (
      parse_message-cons false 1 _ (
        >>=-ok (plain read_uvarint) _ (ap ok (read_uvarint-append height _ hh)) (
          >>=-ok (plain read_uvarint) _ (ap ok (read_uvarint-append reward _ hr)) (
            >>=-ok (plain (read_fixed_byte_array 32)) _ (ap ok (read_fixed_byte_array-last hash hl))
              refl)))))

-- A stats packet of a uint64 is read as its count, which the master keeps as a uint32.
pub parse_message-stats_packet :
    (p2p : Bool) (nr_miners : ℕ)
    → nr_miners < 2 ^ 64
    → parse_message p2p (stats_packet nr_miners) ≡ ok (stats (nr_miners % 2 ^ 32))
unfolding stats_packet read_packet read_stats_packet unless_error
parse_message-stats_packet p2p nr_miners h =
    parse_message-cons p2p 2 _
      (>>=-ok (plain read_uvarint) _ (ap ok (read_uvarint-last nr_miners h)) refl)

-- A P2Pool share packet of a uint64 height is read as its height by a pool with P2Pool, and ignored
-- by any other.
pub parse_message-share_found_packet :
    (p2p : Bool) (height : ℕ)
    → height < 2 ^ 64
    → parse_message p2p (share_found_packet height)
      ≡ ok (if p2p then p2pool_share height else ignored)
unfolding share_found_packet read_packet read_p2pool_packet
parse_message-share_found_packet true height h =
    parse_message-cons true 3 _
      (>>=-ok (plain read_uvarint) _ (ap ok (read_uvarint-last height h)) refl)
parse_message-share_found_packet false height h =
    parse_message-cons false 3 _ {d = reader (uvarint_bytes 9 height)} refl

-- A share packet whose wallet has a stated length of 2^63 or more makes the handler panic, whatever
-- follows.
pub parse_message_panics :
    (p2p : Bool) (count len : ℕ) (rest : Bytes)
    → count < 2 ^ 64
    → 2 ^ 63 ≤ len
    → len < 2 ^ 64
    → parse_message p2p (0 ∷ (uvarint_bytes 9 count ++ (uvarint_bytes 9 len ++ rest))) ≡ panic
unfolding parse_message read_packet read_share_packet
parse_message_panics p2p count len rest hc lo hi =
    ap (λ x. bind x (λ r. ok r.0))
      (>>=-ok (plain read_uint8) (read_packet p2p) (ap ok (read_uint8-cons 0 _)) (
        >>=-ok (plain read_uvarint) _ (ap ok (read_uvarint-append count _ hc)) (
          >>=-panic read_string _
            (read_byte_slice_len len rest hi ∙ slice_of_large len (reader rest) lo))))
