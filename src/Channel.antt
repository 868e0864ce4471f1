-- ===== src/Channel.antt =====
-- cmd/master/crypto.go, the frames of slave/slaveClient.go and of cmd/master/handler.go: a message
-- goes out as two sealed records, its length and its bytes. XChaCha20-Poly1305 is not part of the
-- repository; what the frames rely on is the interface `Aead`.
pub mod Frames
pub mod Races
use go_pool.Base.{
  ℕ, zero, suc, ◌+◌, ◌*◌, ◌%◌, ◌^◌, ◌≡◌, List, [], ◌∷◌, ◌++◌, Option, none, some, ltb,
  if◌then◌else◌, length, take, drop,
}
use go_pool.Base.Bytes.{Bytes}
use go_pool.Serializer.Encoding.{le_bytes, le_value}

-- The cipher under the shared key: a 24-byte nonce, a 16-byte tag, and a message that was sealed
-- opens under its nonce.
pub record Aead : Type 0 where
  pub seal : Bytes → Bytes → Bytes
  pub open_sealed : Bytes → Bytes → Option Bytes
  pub length-seal : (nonce msg : Bytes) → length (seal nonce msg) ≡ length msg + 16
  pub open-seal : (nonce msg : Bytes) → open_sealed nonce (seal nonce msg) ≡ some msg

abbrev pub nonce_size : ℕ
nonce_size = 24

abbrev pub overhead : ℕ
overhead = 40

-- `io.ReadFull`: the next `n` bytes, or an error at the end of the stream.
unfoldable pub read_full : ℕ → Bytes → Option (Bytes × Bytes)
read_full n stream = if ltb (length stream) n then none else some (take n stream, drop n stream)

module _ (aead : Aead) where
  -- The nonce is 24 random bytes, here an argument.
  unfoldable pub encrypt : Bytes → Bytes → Bytes
  encrypt nonce msg = nonce ++ aead.seal nonce msg

  -- `Decrypt` of the master; `none` is its error.
  unfoldable pub decrypt : Bytes → Option Bytes
  decrypt msg =
      if ltb (length msg) nonce_size
      then none
      else aead.open_sealed (take nonce_size msg) (drop nonce_size msg)

  -- The two writes of `sendToConn`, under two nonces. The conversion `uint16(len(data))` wraps.
  abbrev pub send_writes : Bytes → Bytes → Bytes → Bytes × Bytes
  send_writes nonce_len nonce_data msg =
      (encrypt nonce_len (le_bytes 2 (length msg % 2 ^ 16)), encrypt nonce_data msg)

  -- `sendToConn`, where no other call writes in between.
  unfoldable pub send_to_conn : Bytes → Bytes → Bytes → Bytes
  send_to_conn nonce_len nonce_data msg =
      let (first, second) = send_writes nonce_len nonce_data msg in first ++ second

  -- A sealed record of `n` bytes of text.
  unfoldable pub read_record : ℕ → Bytes → Option (Bytes × Bytes)
  read_record n stream = elim (read_full (n + overhead) stream) [
    | none ↦ none
    | some (buf, rest) ↦ elim (decrypt buf) [ none ↦ none | some msg ↦ some (msg, rest) ]
  ]

  -- One round of the loop in `HandleSlave`: the message, and what is left of the stream. `none` is
  -- the end of the connection. `int(lenBuf[0]) | (int(lenBuf[1]) << 8)` is little-endian.
  unfoldable pub receive : Bytes → Option (Bytes × Bytes)
  receive stream = elim (read_record 2 stream) [
    | none ↦ none
    | some (len_buf, rest) ↦ read_record (le_value (take 2 len_buf)) rest
  ]

  -- The loop, with fuel for its rounds: the messages that it hands on, in order. Every message takes
  -- 82 bytes of the stream at least, so the length of the stream is enough.
  unfoldable pub receive_all : ℕ → Bytes → List Bytes
  receive_all zero stream = []
  receive_all (suc fuel) stream = elim (receive stream) [
    | none ↦ []
    | some (msg, rest) ↦ msg ∷ receive_all fuel rest
  ]
