-- ===== src/Channel/Frames.antt =====
-- What is sent is received: one frame, and a stream of frames.
use go_pool.Base.{
  ℕ, zero, suc, ◌+◌, ◌%◌, ◌^◌, ◌<◌, ◌≡◌, refl, List, [], ◌∷◌, ◌++◌, some, arith, length, All, take,
  drop, length-append, take-append, drop-append, append_assoc, le→ltb, ap, subst,
}
use go_pool.Base.Bytes.{Bytes}
use go_pool.Serializer.Encoding.{le_bytes, le_value, length-le_bytes, le_value-le_bytes}
use go_pool.Channel.{
  Aead, overhead, encrypt, decrypt, send_to_conn, read_full, read_record, receive, receive_all,
}

pub take_two : (n : ℕ) → take 2 (le_bytes 2 n) ≡ le_bytes 2 n
unfolding le_bytes
take_two n = refl

module _ (aead : Aead) where
  pub length-encrypt :
      (nonce msg : Bytes)
      → length nonce ≡ 24
      → length (encrypt aead nonce msg) ≡ length msg + overhead
  unfolding encrypt
  length-encrypt nonce msg h =
      omega (arith, length-append nonce (aead.seal nonce msg), aead.length-seal nonce msg)

  -- What is encrypted under a full nonce is decrypted.
  pub decrypt-encrypt :
      (nonce msg : Bytes) → length nonce ≡ 24 → decrypt aead (encrypt aead nonce msg) ≡ some msg
  unfolding decrypt encrypt
  decrypt-encrypt nonce msg h =
      rw
        (le→ltb (length (nonce ++ aead.seal nonce msg)) 24
          (omega (arith, length-append nonce (aead.seal nonce msg))))
        (subst
          (λ n.
            aead.open_sealed (take n (nonce ++ aead.seal nonce msg))
              (drop n (nonce ++ aead.seal nonce msg))
            ≡ some msg)
          h
          (rw (take-append nonce (aead.seal nonce msg), drop-append nonce (aead.seal nonce msg))
            (aead.open-seal nonce msg)))

  read_full-append :
      (a rest : Bytes) (n : ℕ) → length a ≡ n → read_full n (a ++ rest) ≡ some (a, rest)
  unfolding read_full
  read_full-append a rest n h =
      subst (λ m. read_full m (a ++ rest) ≡ some (a, rest)) h
        (rw (le→ltb (length (a ++ rest)) (length a) (omega (arith, length-append a rest)))
          (rw (take-append a rest, drop-append a rest)))

  pub read_record-encrypt :
      (nonce msg rest : Bytes) (n : ℕ)
      → length nonce ≡ 24
      → length msg ≡ n
      → read_record aead n (encrypt aead nonce msg ++ rest) ≡ some (msg, rest)
  unfolding read_record
  read_record-encrypt nonce msg rest n h e =
      rw
        (
          read_full-append (encrypt aead nonce msg) rest (n + overhead)
              (omega (arith, length-encrypt nonce msg h)),
          read_record,
        )
        (rw (decrypt-encrypt nonce msg h))

  -- A message of fewer than 2^16 bytes that is sent under two nonces of 24 bytes is received whole,
  -- and the stream behind it is left alone.
  pub receive-send_to_conn :
      (nonce_len nonce_data msg rest : Bytes)
      → length nonce_len ≡ 24
      → length nonce_data ≡ 24
      → length msg < 2 ^ 16
      → receive aead (send_to_conn aead nonce_len nonce_data msg ++ rest) ≡ some (msg, rest)
  unfolding receive send_to_conn
  receive-send_to_conn nonce_len nonce_data msg rest h k small =
      let len : ℕ = length msg % 2 ^ 16 in
      rw (append_assoc (encrypt aead nonce_len (le_bytes 2 len)) (encrypt aead nonce_data msg) rest)
        (rw
          (
            read_record-encrypt nonce_len (le_bytes 2 len) (encrypt aead nonce_data msg ++ rest) 2 h
                (length-le_bytes 2 len),
            receive,
          )
          (read_record-encrypt nonce_data msg rest (le_value (take 2 (le_bytes 2 len))) k
            (omega (arith, ap le_value (take_two len), le_value-le_bytes 2 len (omega arith)))))

  -- A frame is a message under its two nonces.
  abbrev pub IsFrame : Bytes × Bytes × Bytes → Type 0
  IsFrame (nonce_len, nonce_data, msg) =
      (length nonce_len ≡ 24) × (length nonce_data ≡ 24) × (length msg < 2 ^ 16)

  abbrev pub send_all : List (Bytes × Bytes × Bytes) → Bytes
  send_all [] = []
  send_all ((nonce_len, nonce_data, msg) ∷ frames) =
      send_to_conn aead nonce_len nonce_data msg ++ send_all frames

  abbrev pub messages : List (Bytes × Bytes × Bytes) → List Bytes
  messages [] = []
  messages ((_, _, msg) ∷ frames) = msg ∷ messages frames

  length-send_to_conn :
      (nonce_len nonce_data msg : Bytes)
      → length nonce_len ≡ 24
      → 0 < length (send_to_conn aead nonce_len nonce_data msg)
  unfolding send_to_conn encrypt
  length-send_to_conn nonce_len nonce_data msg h = omega (
    arith,
    length-append (encrypt aead nonce_len (le_bytes 2 (length msg % 2 ^ 16)))
        (encrypt aead nonce_data msg),
    length-encrypt nonce_len (le_bytes 2 (length msg % 2 ^ 16)) h,
  )

  receive_all-send_all :
      (fuel : ℕ) (frames : List (Bytes × Bytes × Bytes))
      → All IsFrame frames
      → length (send_all frames) < fuel
      → receive_all aead fuel (send_all frames) ≡ messages frames
  unfolding receive_all
  receive_all-send_all zero frames v h = absurd (omega arith)
  receive_all-send_all (suc fuel) [] v h = unfold receive read_record read_full in refl
  receive_all-send_all (suc fuel) ((a, b, msg) ∷ frames) v h =
      rw (receive-send_to_conn a b msg (send_all frames) v.0.0 v.0.1 v.0.2, receive_all)
        (ap (λ l. msg ∷ l)
          (receive_all-send_all fuel frames v.1 (
            omega (
              arith,
              length-append (send_to_conn aead a b msg) (send_all frames),
              length-send_to_conn a b msg v.0.0,
            ))))

  -- The loop of `HandleSlave` hands on the messages of a stream of frames, all of them and in order,
  -- and then stops: the length of the stream and one is enough fuel. Each message has fewer than
  -- 2^16 bytes and is sent under two nonces of 24 bytes.
  pub handle_slave-send_all :
      (frames : List (Bytes × Bytes × Bytes))
      → All IsFrame frames
      → receive_all aead (length (send_all frames) + 1) (send_all frames) ≡ messages frames
  handle_slave-send_all frames v =
      receive_all-send_all (length (send_all frames) + 1) frames v (omega arith)
