-- ===== src/Database/RoundTrip.antt =====
-- The records of database.go survive `Serialize` and `Deserialize`.
use go_pool.Base.{◌<◌, ◌^◌, ◌≡◌, refl, [], ◌∷◌, ◌++◌, ok, length, append-nil, append_assoc, ap}
use go_pool.Base.Assoc.{bytes_keys}
use go_pool.Serializer.{reader, read_uint8, read_string, read_uint64, read_uvarint}
use go_pool.Serializer.Encoding.{uvarint_bytes, le_bytes}
use go_pool.Serializer.Reads.{plain, >>=-ok, >>-ok}
use go_pool.Serializer.RoundTrip.{
  read_uint8-cons, read_uint64-append, read_uvarint-append, read_byte_slice_prefix,
}
use go_pool.Database.{
  Share, serialize_share, deserialize_share, WorkerInfo, serialize_worker_info,
  deserialize_worker_info, AddrInfo, serialize_addr_info, deserialize_addr_info,
}

-- The fields are within the ranges of their Go types; a length of 2^63 or more is no Go length.
pub record IsShare (x : Share) : Type 0 where
  pub wallet_len : length x.wallet < 2 ^ 63
  pub worker_len : length x.worker_id < 2 ^ 63
  pub diff_u64 : x.diff < 2 ^ 64
  pub time_u64 : x.time < 2 ^ 64

serialize_share_lem :
    (x : Share)
    → serialize_share x
      ≡ 0
        ∷ (uvarint_bytes 9 (length x.wallet)
            ++ (x.wallet
                ++ (uvarint_bytes 9 (length x.worker_id)
                    ++ (x.worker_id ++ (le_bytes 8 x.diff ++ (le_bytes 8 x.time ++ []))))))
unfolding serialize_share
serialize_share_lem x = simp (append_assoc, append-nil)

-- A share that is written is read back, with no error and nothing left, if its strings are shorter
-- than 2^63 bytes and its numbers are uint64.
pub deserialize_share-serialize_share :
    (x : Share) → IsShare x → deserialize_share (serialize_share x) ≡ ok (x, reader [])
unfolding deserialize_share
deserialize_share-serialize_share x h = rw (serialize_share_lem x) (
    >>-ok (plain read_uint8) _ (ap ok (read_uint8-cons 0 _)) (
      >>=-ok read_string _ (read_byte_slice_prefix x.wallet _ h.wallet_len) (
        >>=-ok read_string _ (read_byte_slice_prefix x.worker_id _ h.worker_len) (
          >>=-ok (plain read_uint64) _ (ap ok (read_uint64-append x.diff _ h.diff_u64))
            (>>=-ok (plain read_uint64) _ (ap ok (read_uint64-append x.time _ h.time_u64)) refl)))))

pub record IsWorkerInfo (x : WorkerInfo) : Type 0 where
  pub address_len : length x.address < 2 ^ 63
  pub worker_len : length x.worker_id < 2 ^ 63
  pub active_u64 : x.last_active < 2 ^ 64

serialize_worker_info_lem :
    (x : WorkerInfo)
    → serialize_worker_info x
      ≡ 0
        ∷ (uvarint_bytes 9 (length x.address)
            ++ (x.address
                ++ (uvarint_bytes 9 (length x.worker_id)
                    ++ (x.worker_id ++ (uvarint_bytes 9 x.last_active ++ [])))))
unfolding serialize_worker_info
serialize_worker_info_lem x = simp (append_assoc, append-nil)

-- A worker record that is written is read back, with no error and nothing left, if its strings are
-- shorter than 2^63 bytes and its number is a uint64.
pub deserialize_worker_info-serialize_worker_info :
    (x : WorkerInfo)
    → IsWorkerInfo x
    → deserialize_worker_info (serialize_worker_info x) ≡ ok (x, reader [])
unfolding deserialize_worker_info
deserialize_worker_info-serialize_worker_info x h = rw (serialize_worker_info_lem x) (
    >>-ok (plain read_uint8) _ (ap ok (read_uint8-cons 0 _)) (
      >>=-ok read_string _ (read_byte_slice_prefix x.address _ h.address_len) (
        >>=-ok read_string _ (read_byte_slice_prefix x.worker_id _ h.worker_len) (
          >>=-ok (plain read_uvarint) _ (ap ok (read_uvarint-append x.last_active _ h.active_u64))
            refl))))

pub record IsAddrInfo (x : AddrInfo) : Type 0 where
  pub balance_u64 : x.balance < 2 ^ 64
  pub pending_u64 : x.balance_pending < 2 ^ 64
  pub paid_u64 : x.paid < 2 ^ 64

serialize_addr_info_lem :
    (x : AddrInfo)
    → serialize_addr_info x
      ≡ 0
        ∷ (uvarint_bytes 9 x.balance
            ++ (uvarint_bytes 9 x.balance_pending ++ (uvarint_bytes 9 x.paid ++ [])))
unfolding serialize_addr_info
serialize_addr_info_lem x = simp (append_assoc, append-nil)

-- An address record of uint64 numbers that is written is read back, with no error and nothing left.
pub deserialize_addr_info-serialize_addr_info :
    (x : AddrInfo)
    → IsAddrInfo x
    → deserialize_addr_info (serialize_addr_info x) ≡ ok (x, reader [])
unfolding deserialize_addr_info
deserialize_addr_info-serialize_addr_info x h = rw (serialize_addr_info_lem x) (
    >>-ok (plain read_uint8) _ (ap ok (read_uint8-cons 0 _)) (
      >>=-ok (plain read_uvarint) _ (ap ok (read_uvarint-append x.balance _ h.balance_u64)) (
        >>=-ok (plain read_uvarint) _
          (ap ok (read_uvarint-append x.balance_pending _ h.pending_u64))
          (>>=-ok (plain read_uvarint) _ (ap ok (read_uvarint-append x.paid _ h.paid_u64)) refl))))
