-- ===== src/Channel/Races.antt =====
-- slave/slaveClient.go: `SendStats` and the other packets go to the connection by two writes, and no
-- mutex keeps the writes of two calls apart.
use go_pool.Base.{
  ℕ, suc, ◌+◌, ◌*◌, ◌%◌, ◌^◌, ◌<◌, ◌≡◌, refl, [], ◌∷◌, ◌++◌, some, none, arith, length, take,
  lt→ltb, ap,
}
use go_pool.Base.Bytes.{Bytes}
use go_pool.Serializer.Encoding.{
  le_bytes, le_value, uvarint_bytes, length-le_bytes, le_value-le_bytes,
}
use go_pool.Slave.{stats_packet}
use go_pool.Channel.{
  Aead, overhead, encrypt, read_full, read_record, send_writes, receive, receive_all,
}
use go_pool.Channel.Frames.{take_two, length-encrypt, read_record-encrypt}

-- Below 128 connections the packet of the statistics has two bytes.
stats_packet_form : (n : ℕ) → n < 128 → stats_packet n ≡ 2 ∷ (n ∷ [])
unfolding stats_packet uvarint_bytes
stats_packet_form n h = rw (lt→ltb n 128 h) refl

module _ (aead : Aead) where
  -- The stream of two calls whose writes alternate.
  abbrev pub interleaved : Bytes × Bytes → Bytes × Bytes → Bytes
  interleaved (a, a') (b, b') = a ++ (b ++ (a' ++ b'))

  -- A record that is longer than the rest of the stream is not read.
  read_record_short :
      (n : ℕ) (stream : Bytes) → length stream < n + overhead → read_record aead n stream ≡ none
  unfolding read_record read_full
  read_record_short n stream h =
      rw (lt→ltb (length stream) (n + overhead) h, read_record, read_full) refl

  -- The length of the other packet is read as the message.
  first_read :
      (k : ℕ) (na nc rest : Bytes) (n : ℕ)
      → length na ≡ 24
      → length nc ≡ 24
      → n < 258
      → receive aead (
          encrypt aead na (le_bytes 2 (2 % 2 ^ 16))
          ++ (encrypt aead nc (le_bytes 2 (n % 2 ^ 16)) ++ rest))
        ≡ some (le_bytes 2 n, rest)
  unfolding receive
  first_read k na nc rest n ha hc small =
      let whole : n % 2 ^ 16 ≡ n = omega arith in
      rw whole (
        rw
          (
            read_record-encrypt aead na (le_bytes 2 2) (encrypt aead nc (le_bytes 2 n) ++ rest) 2 ha
                (length-le_bytes 2 2),
            receive,
          )
          (read_record-encrypt aead nc (le_bytes 2 n) rest (le_value (take 2 (le_bytes 2 2))) hc (
            omega (
              arith,
              ap le_value (take_two 2),
              le_value-le_bytes 2 2 (omega arith),
              length-le_bytes 2 n,
            ))))

  -- The statistics are read as a length, for which the stream is too short.
  second_read :
      (k : ℕ) (nb rest : Bytes)
      → length nb ≡ 24
      → length rest < 2 + 256 * k + overhead
      → receive aead (encrypt aead nb (2 ∷ (k ∷ [])) ++ rest) ≡ none
  unfolding receive le_value
  second_read k nb rest hb short =
      rw (read_record-encrypt aead nb (2 ∷ (k ∷ [])) rest 2 hb refl, receive)
        (read_record_short (le_value (2 ∷ (k ∷ []))) rest (omega (arith, short)))

  -- A packet of the statistics of 1 to 127 connections, and one of fewer than 258 bytes, whose writes
  -- alternate under nonces of 24 bytes: neither is received. The master is handed the two bytes of the
  -- other packet's length as a message, then takes the statistics for a length and stops.
  pub receive_all-interleaved :
      (k fuel : ℕ) (na nb nc nd msg : Bytes)
      → length na ≡ 24
      → length nb ≡ 24
      → length nc ≡ 24
      → length nd ≡ 24
      → 0 < k
      → k < 128
      → length msg < 258
      → receive_all aead
          (suc (suc fuel))
          (interleaved (send_writes aead na nb (stats_packet k)) (send_writes aead nc nd msg))
        ≡ le_bytes 2 (length msg) ∷ []
  unfolding receive_all
  receive_all-interleaved k fuel na nb nc nd msg ha hb hc hd some_conn few small =
      let packet : Bytes = 2 ∷ (k ∷ []) in
      let rest : Bytes = encrypt aead nb packet ++ encrypt aead nd msg in
      rw (stats_packet_form k few) (
        rw (first_read k na nc rest (length msg) ha hc small, receive_all)
          (rw
            (
              second_read k nb (encrypt aead nd msg) hb
                  (omega (arith, length-encrypt aead nd msg hd)),
              receive_all,
            )
            refl))
