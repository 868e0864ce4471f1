-- ===== src/Database/Pending.antt =====
-- The nested records of database.go, `UnconfTx` and `PendingBals`, survive `Serialize` and
-- `Deserialize`.
use go_pool.Base.{
  ℕ, ◌<◌, ◌≤◌, ◌^◌, ◌≡◌, refl, List, [], ◌∷◌, ◌++◌, ok, bind, arith, lt→ltb, le→leb, if◌then◌else◌,
  length, append-nil, append_assoc, ◌∙◌, ap, subst, sym,
}
use go_pool.Base.Bytes.{Bytes}
use go_pool.Base.Assoc.{Assoc, bytes_keys, IsMap, IsMap-middle, insert-fresh}
use go_pool.Serializer.{Serializer, reader, read_uint8, read_string, read_uvarint, read_bool}
use go_pool.Serializer.Encoding.{uvarint_bytes}
use go_pool.Serializer.Reads.{plain, >>=-ok, >>-ok}
use go_pool.Serializer.RoundTrip.{
  read_uint8-cons, read_uvarint-append, read_byte_slice_prefix, read_bool-cons,
  read_fixed_byte_array-append,
}
use go_pool.Database.{
  UnconfTx, PendingBals, add_bals, serialize_unconf_tx, read_hash, read_bals, read_unconf_tx,
  add_unconf_txs, serialize_pending_bals, read_unconf_txs, read_pending_bals,
  deserialize_pending_bals,
}

abbrev pub IsBals : Assoc Bytes ℕ → Type 0
IsBals [] = Unit
IsBals ((k, v) ∷ m) = (length k < 2 ^ 63) × (v < 2 ^ 64) × IsBals m

pub record IsUnconfTx (x : UnconfTx) : Type 0 where
  pub height_u64 : x.unlock_height < 2 ^ 64
  pub hash_len : length x.txn_hash ≡ 32
  pub bals_len : length x.bals < 2 ^ 63
  pub bals_range : IsBals x.bals
  pub bals_map : IsMap x.bals

-- The bytes of a map and of a transaction, in front of what follows them.
bals_bytes : Assoc Bytes ℕ → Bytes → Bytes
bals_bytes [] rest = rest
bals_bytes ((k, v) ∷ m) rest =
    uvarint_bytes 9 (length k) ++ (k ++ (uvarint_bytes 9 v ++ bals_bytes m rest))

tx_bytes : UnconfTx → Bytes → Bytes
tx_bytes x rest =
    0
    ∷ (uvarint_bytes 9 x.unlock_height
        ++ (x.txn_hash
            ++ (uvarint_bytes 9 (length x.bals)
                ++ bals_bytes x.bals ((if x.balances_added then 1 else 0) ∷ rest))))

add_bals_lem :
    (m : Assoc Bytes ℕ) (s : Serializer) (rest : Bytes)
    → (add_bals m s).data_bytes ++ rest ≡ s.data_bytes ++ bals_bytes m rest
unfolding add_bals bals_bytes
add_bals_lem [] s rest = refl
add_bals_lem ((k, v) ∷ m) s rest = add_bals_lem m _ rest ∙ simp append_assoc

bals_bytes-append :
    (m : Assoc Bytes ℕ) (xs ys : Bytes) → bals_bytes m xs ++ ys ≡ bals_bytes m (xs ++ ys)
unfolding bals_bytes
bals_bytes-append [] xs ys = refl
bals_bytes-append ((k, v) ∷ m) xs ys = simp (append_assoc, bals_bytes-append m xs ys)

tx_bytes-append : (x : UnconfTx) (rest : Bytes) → tx_bytes x [] ++ rest ≡ tx_bytes x rest
unfolding tx_bytes
tx_bytes-append x rest = simp (append_assoc, bals_bytes-append)

serialize_unconf_tx_lem :
    (x : UnconfTx) → length x.txn_hash ≡ 32 → serialize_unconf_tx x ≡ ok (tx_bytes x [])
unfolding serialize_unconf_tx tx_bytes
serialize_unconf_tx_lem x h =
    rw h
      (ap ok (add_bals_lem x.bals _ ((if x.balances_added then 1 else 0) ∷ []) ∙ simp append_assoc))

read_hash-append :
    (a rest : Bytes) → length a ≡ 32 → read_hash (reader (a ++ rest)) ≡ ok (a, reader rest)
unfolding read_hash
read_hash-append a rest h = rw (read_fixed_byte_array-append a rest h) (rw h)

read_bals-bytes :
    (m acc : Assoc Bytes ℕ) (rest : Bytes)
    → IsBals m
    → IsMap (acc ++ m)
    → read_bals (length m) acc (reader (bals_bytes m rest)) ≡ ok (acc ++ m, reader rest)
unfolding read_bals bals_bytes
read_bals-bytes [] acc rest r h = rw (append-nil acc)
read_bals-bytes ((k, v) ∷ m) acc rest (hk, hv, r) h =
    >>=-ok read_string _ (read_byte_slice_prefix k _ hk) (
      >>=-ok (plain read_uvarint) _ (ap ok (read_uvarint-append v _ hv)) (
        rw (insert-fresh k v acc (IsMap-middle acc k v m h)) (
          read_bals-bytes m (acc ++ ((k, v) ∷ [])) rest r
            (subst IsMap (sym (append_assoc acc ((k, v) ∷ []) m)) h)
          ∙ ap (λ l. ok (l, reader rest)) (append_assoc acc ((k, v) ∷ []) m))))

read_unconf_tx-bytes :
    (x : UnconfTx) (rest : Bytes)
    → IsUnconfTx x
    → read_unconf_tx (reader (tx_bytes x rest)) ≡ ok (x, reader rest)
unfolding read_unconf_tx tx_bytes
read_unconf_tx-bytes x rest h = >>-ok (plain read_uint8) _ (ap ok (read_uint8-cons 0 _)) (
    >>=-ok (plain read_uvarint) _ (ap ok (read_uvarint-append x.unlock_height _ h.height_u64)) (
      >>=-ok read_hash _ (read_hash-append x.txn_hash _ h.hash_len) (
        >>=-ok (plain read_uvarint) _
          (ap ok (read_uvarint-append (length x.bals) _ (omega (arith, h.bals_len))))
          (rw (lt→ltb (length x.bals) (2 ^ 63) h.bals_len) (
            >>=-ok (read_bals (length x.bals) []) _
              (read_bals-bytes x.bals [] _ h.bals_range h.bals_map)
              (>>=-ok (plain read_bool) _ (ap ok (read_bool-cons x.balances_added rest)) refl))))))

txs_bytes : List UnconfTx → Bytes → Bytes
txs_bytes [] rest = rest
txs_bytes (x ∷ xs) rest = tx_bytes x (txs_bytes xs rest)

abbrev pub AllUnconfTx : List UnconfTx → Type 0
AllUnconfTx [] = Unit
AllUnconfTx (x ∷ xs) = IsUnconfTx x × AllUnconfTx xs

add_unconf_txs_lem :
    (xs : List UnconfTx) (s : Serializer)
    → AllUnconfTx xs
    → add_unconf_txs xs s ≡ ok (record { data_bytes = s.data_bytes ++ txs_bytes xs [] })
unfolding add_unconf_txs txs_bytes
add_unconf_txs_lem [] s h = rw (append-nil s.data_bytes)
add_unconf_txs_lem (x ∷ xs) s h = rw (serialize_unconf_tx_lem x h.0.hash_len) (
    add_unconf_txs_lem xs _ h.1
    ∙ ap (λ bs. ok (record { data_bytes = bs }))
        (append_assoc s.data_bytes (tx_bytes x []) (txs_bytes xs [])
          ∙ ap (λ bs. s.data_bytes ++ bs) (tx_bytes-append x (txs_bytes xs []))))

read_unconf_txs-bytes :
    (xs acc : List UnconfTx) (rest : Bytes)
    → AllUnconfTx xs
    → read_unconf_txs (length xs) acc (reader (txs_bytes xs rest)) ≡ ok (acc ++ xs, reader rest)
unfolding read_unconf_txs txs_bytes
read_unconf_txs-bytes [] acc rest h = rw (append-nil acc)
read_unconf_txs-bytes (x ∷ xs) acc rest h = rw (read_unconf_tx-bytes x (txs_bytes xs rest) h.0) (
    read_unconf_txs-bytes xs (acc ++ (x ∷ [])) rest h.1
    ∙ ap (λ l. ok (l, reader rest)) (append_assoc acc (x ∷ []) xs))

pub record IsPendingBals (max_cap : ℕ) (x : PendingBals) : Type 0 where
  pub height_u64 : x.last_height < 2 ^ 64
  pub txs_cap : length x.unconfirmed_txs ≤ max_cap
  pub txs_len : length x.unconfirmed_txs < 2 ^ 63
  pub txs_valid : AllUnconfTx x.unconfirmed_txs

-- `Serialize` of a pending record does not panic, and `Deserialize` of its result gives the record
-- back with no error and nothing left. The numbers are uint64, each hash has 32 bytes, no key of a
-- map stands twice, and the count of transactions can be allocated.
pub deserialize_pending_bals-serialize_pending_bals :
    (max_cap : ℕ) (x : PendingBals)
    → IsPendingBals max_cap x
    → bind (serialize_pending_bals x) (deserialize_pending_bals max_cap) ≡ ok (x, reader [])
unfolding serialize_pending_bals deserialize_pending_bals read_pending_bals
deserialize_pending_bals-serialize_pending_bals max_cap x h =
    rw (add_unconf_txs_lem x.unconfirmed_txs _ h.txs_valid) (
      rw (append_assoc (uvarint_bytes 9 x.last_height)) (
        >>-ok (plain read_uint8) _ (ap ok (read_uint8-cons 0 _)) (
          >>=-ok (plain read_uvarint) _ (ap ok (read_uvarint-append x.last_height _ h.height_u64)) (
            >>=-ok (plain read_uvarint) _
              (ap ok (read_uvarint-append (length x.unconfirmed_txs) _ (omega (arith, h.txs_len))))
              (>>=-ok _ _
                (rw (le→leb (length x.unconfirmed_txs) max_cap h.txs_cap)
                  (read_unconf_txs-bytes x.unconfirmed_txs [] [] h.txs_valid))
                refl)))))
