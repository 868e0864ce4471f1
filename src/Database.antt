-- ===== src/Database.antt =====
-- database/database.go: the stored records and their binary form. `Deserialize` gives the filled
-- struct with the deserializer's last state, whose `error` is the method's result; the panic of a
-- callee is the method's. A Go map is written in the order of its list, which Go leaves open.
pub mod RoundTrip
pub mod Pending
use go_pool.Base.{
  ℕ, zero, suc, ◌+◌, ◌<◌, ◌^◌, Bool, true, false, List, [], ◌∷◌, ◌++◌, Option, none, some, Outcome,
  ok, panic, bind, ltb, leb, if◌then◌else◌, length,
}
use go_pool.Base.Bytes.{Bytes}
use go_pool.Base.Assoc.{Assoc, insert, bytes_keys}
use go_pool.Serializer.{
  Serializer, add_uint8, add_uint64, add_uvarint, add_string, add_fixed_byte_array, add_bool, push,
  Deserializer, ReadError, reader, read_uint8, read_uint64, read_uvarint, read_string, read_bool,
  read_fixed_byte_array,
}
use go_pool.Serializer.Reads.{Read, plain, pure, ◌>>=◌, ◌>>◌}

abbrev pub version : ℕ
version = 0

abbrev pub empty : Serializer
empty = record { data_bytes = [] }

pub record Share : Type 0 where
  pub wallet : Bytes
  pub worker_id : Bytes
  pub diff : ℕ
  pub time : ℕ

unfoldable pub serialize_share : Share → Bytes
serialize_share x =
    let s = add_string x.worker_id (add_string x.wallet (add_uint8 version empty)) in
    (add_uint64 x.time (add_uint64 x.diff s)).data_bytes

abbrev read_share : Read Share
read_share = do
  plain read_uint8
  wallet ← read_string
  worker_id ← read_string
  diff ← plain read_uint64
  time ← plain read_uint64
  pure (record { wallet = wallet; worker_id = worker_id; diff = diff; time = time })

unfoldable pub deserialize_share : Bytes → Outcome (Share × Deserializer)
deserialize_share bytes = read_share (reader bytes)

-- `Hashrate5m` is calculated by the callers, and not stored.
pub record WorkerInfo : Type 0 where
  pub address : Bytes
  pub worker_id : Bytes
  pub last_active : ℕ

unfoldable pub serialize_worker_info : WorkerInfo → Bytes
serialize_worker_info x =
    let s = add_string x.worker_id (add_string x.address (add_uint8 version empty)) in
    (add_uvarint x.last_active s).data_bytes

abbrev read_worker_info : Read WorkerInfo
read_worker_info = do
  plain read_uint8
  address ← read_string
  worker_id ← read_string
  last_active ← plain read_uvarint
  pure (record { address = address; worker_id = worker_id; last_active = last_active })

unfoldable pub deserialize_worker_info : Bytes → Outcome (WorkerInfo × Deserializer)
deserialize_worker_info bytes = read_worker_info (reader bytes)

pub record UnconfTx : Type 0 where
  pub unlock_height : ℕ
  pub txn_hash : Bytes
  pub bals : Assoc Bytes ℕ
  pub balances_added : Bool

pub record PendingBals : Type 0 where
  pub last_height : ℕ
  pub unconfirmed_txs : List UnconfTx

-- The loop over `x.Bals`.
unfoldable pub add_bals : Assoc Bytes ℕ → Serializer → Serializer
add_bals [] s = s
add_bals ((k, v) ∷ m) s = add_bals m (add_uvarint v (add_string k s))

unfoldable pub serialize_unconf_tx : UnconfTx → Outcome Bytes
serialize_unconf_tx x =
    bind
      (add_fixed_byte_array x.txn_hash 32 (add_uvarint x.unlock_height (add_uint8 version empty)))
      (λ s.
        ok (add_bool x.balances_added (add_bals x.bals (add_uvarint (length x.bals) s))).data_bytes)

-- The conversion `[32]byte(b)` panics on a shorter slice, which a failed read returns.
unfoldable pub read_hash : Read Bytes
read_hash d = let r = read_fixed_byte_array 32 d in if leb 32 (length r.0) then ok r else panic

-- `for i := 0; i < balsLen; i++ { x.Bals[d.ReadString()] = d.ReadUvarint() }`
unfoldable pub read_bals : ℕ → Assoc Bytes ℕ → Read (Assoc Bytes ℕ)
read_bals zero m = pure m
read_bals (suc n) m = do
  key ← read_string
  amount ← plain read_uvarint
  read_bals n (insert key amount m)

-- `int(n)` of a uint64, as the bound of a loop: a negative bound makes no round.
abbrev pub loop_bound : ℕ → ℕ
loop_bound n = if ltb n (2 ^ 63) then n else 0

unfoldable pub read_unconf_tx : Read UnconfTx
read_unconf_tx = do
  plain read_uint8
  unlock_height ← plain read_uvarint
  txn_hash ← read_hash
  bals_len ← plain read_uvarint
  bals ← read_bals (loop_bound bals_len) []
  balances_added ← plain read_bool
  pure (record {
    unlock_height = unlock_height;
    txn_hash = txn_hash;
    bals = bals;
    balances_added = balances_added;
  })

-- The loop over `x.UnconfirmedTxs`.
unfoldable pub add_unconf_txs : List UnconfTx → Serializer → Outcome Serializer
add_unconf_txs [] s = ok s
add_unconf_txs (x ∷ xs) s = bind (serialize_unconf_tx x) (λ bs. add_unconf_txs xs (push bs s))

unfoldable pub serialize_pending_bals : PendingBals → Outcome Bytes
serialize_pending_bals x =
    let s = add_uvarint x.last_height (add_uint8 version empty) in
    bind (add_unconf_txs x.unconfirmed_txs (add_uvarint (length x.unconfirmed_txs) s))
      (λ t. ok t.data_bytes)

-- Each transaction is read by a deserializer of its own from the rest, whose error ends the loop.
unfoldable pub read_unconf_txs : ℕ → List UnconfTx → Read (List UnconfTx)
read_unconf_txs zero xs d = ok (xs, d)
read_unconf_txs (suc n) xs d = bind (read_unconf_tx (reader d.bytes)) (λ r.
    let rest = read_unconf_txs n (xs ++ (r.0 ∷ [])) (record d { bytes = r.1.bytes }) in
    elim r.1.error [ none ↦ rest | some e ↦ ok (xs, record { bytes = r.1.bytes; error = some e }) ])

-- `make([]UnconfTx, 0, n)` panics on a negative capacity and on one that the runtime cannot
-- allocate, here one above `max_cap`.
module _ (max_cap : ℕ) where
  unfoldable pub read_pending_bals : Read PendingBals
  read_pending_bals = do
    plain read_uint8
    last_height ← plain read_uvarint
    num_unconf ← plain read_uvarint
    txs ← (λ d. if leb num_unconf max_cap then read_unconf_txs num_unconf [] d else panic)
    pure (record { last_height = last_height; unconfirmed_txs = txs })

  unfoldable pub deserialize_pending_bals : Bytes → Outcome (PendingBals × Deserializer)
  unfolding read_pending_bals
  deserialize_pending_bals bytes = read_pending_bals (reader bytes)

pub record AddrInfo : Type 0 where
  pub balance : ℕ
  pub balance_pending : ℕ
  pub paid : ℕ

unfoldable pub serialize_addr_info : AddrInfo → Bytes
serialize_addr_info x =
    let s = add_uvarint x.balance (add_uint8 version empty) in
    (add_uvarint x.paid (add_uvarint x.balance_pending s)).data_bytes

abbrev read_addr_info : Read AddrInfo
read_addr_info = do
  plain read_uint8
  balance ← plain read_uvarint
  balance_pending ← plain read_uvarint
  paid ← plain read_uvarint
  pure (record { balance = balance; balance_pending = balance_pending; paid = paid })

unfoldable pub deserialize_addr_info : Bytes → Outcome (AddrInfo × Deserializer)
deserialize_addr_info bytes = read_addr_info (reader bytes)
