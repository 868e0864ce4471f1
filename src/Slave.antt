-- ===== src/Slave.antt =====
-- slave/slaveQueue.go and the `Send` functions of slave/slaveClient.go: the cache of shares between
-- two sends, and the packets for the master.
pub mod Keys
pub mod Totals
use go_pool.Base.{
  ℕ, zero, suc, ◌+◌, ◌%◌, ◌^◌, Bool, true, false, List, [], ◌∷◌, ◌++◌, Option, none, some, Outcome,
  ok, panic, bind, ltb, ◌==◌, if◌then◌else◌, length, get_elem?, take, map,
}
use go_pool.Base.Bytes.{Bytes}
use go_pool.Base.Assoc.{Assoc, lookup, insert, bytes_keys}
use go_pool.Serializer.{Serializer, add_uvarint, add_string, add_fixed_byte_array}

pub record ShareCache : Type 0 where
  pub num_shares : ℕ
  pub total_diff : ℕ
  pub worker_id : Bytes

-- The value of a missing key.
abbrev pub no_shares : ShareCache
no_shares = record { num_shares = 0; total_diff = 0; worker_id = [] }

abbrev pub cached : Option ShareCache → ShareCache
cached none = no_shares
cached (some x) = x

abbrev pub colon : ℕ
colon = b':'

-- The composite key `wallet:workerID`.
abbrev pub key_of : Bytes → Bytes → Bytes
key_of wallet worker_id = wallet ++ (colon ∷ worker_id)

-- `cacheShareWithWorker`: a uint32 and a uint64 that wrap.
unfoldable pub cache_share_with_worker :
    Bytes → Bytes → ℕ → Assoc Bytes ShareCache → Assoc Bytes ShareCache
cache_share_with_worker wallet worker_id diff shares =
    let key = key_of wallet worker_id in
    let x = cached (lookup key shares) in
    insert key
      (record {
        num_shares = (x.num_shares + 1) % 2 ^ 32;
        total_diff = (x.total_diff + diff) % 2 ^ 64;
        worker_id = worker_id;
      })
      shares

-- The worker of a share that comes with none.
abbrev pub legacy : Bytes
legacy = b'l' ∷ b'e' ∷ b'g' ∷ b'a' ∷ b'c' ∷ b'y' ∷ []

unfoldable pub cache_share : Bytes → ℕ → Assoc Bytes ShareCache → Assoc Bytes ShareCache
unfolding cache_share_with_worker
cache_share wallet diff = cache_share_with_worker wallet legacy diff

abbrev pub is_colon : Option ℕ → Bool
is_colon none = false
is_colon (some b) = b == colon

-- `for i := lastColon; i >= 0; i--`: the index of the last colon below `n`.
unfoldable pub scan_colon : ℕ → Bytes → Option ℕ
scan_colon zero key = none
scan_colon (suc i) key =
    let below = scan_colon i key in if is_colon (get_elem? key i) then some i else below

-- The wallet that the sender takes from a key.
unfoldable pub wallet_of_key : Bytes → Bytes
wallet_of_key key =
    if ltb 1 (length key)
    then elim (scan_colon (length key) key) [ none ↦ key | some i ↦ take i key ]
    else key

abbrev packet : ℕ → Serializer
packet n = record { data_bytes = n ∷ [] }

-- The packets: `sendCachedShareWithWorker`, `SendBlockFound`, `SendStats`, `SendShareFound`.
unfoldable pub share_packet : ℕ → Bytes → Bytes → ℕ → Bytes
share_packet count wallet worker_id diff =
    let s = add_string worker_id (add_string wallet (add_uvarint count (packet 0))) in
    (add_uvarint diff s).data_bytes

unfoldable pub block_packet : ℕ → ℕ → Bytes → Outcome Bytes
block_packet height reward hash =
    bind (add_fixed_byte_array hash 32 (add_uvarint reward (add_uvarint height (packet 1))))
      (λ s. ok s.data_bytes)

unfoldable pub stats_packet : ℕ → Bytes
stats_packet nr_miners = (add_uvarint nr_miners (packet 2)).data_bytes

unfoldable pub share_found_packet : ℕ → Bytes
share_found_packet height = (add_uvarint height (packet 3)).data_bytes

abbrev packet_of : Bytes × ShareCache → Bytes
packet_of (key, v) = share_packet v.num_shares (wallet_of_key key) v.worker_id v.total_diff

-- The sender's round every ten seconds: with a connection it sends each entry and empties the
-- cache, without one it leaves the cache alone.
unfoldable pub flush : Bool → Assoc Bytes ShareCache → List Bytes × Assoc Bytes ShareCache
flush true shares = (map packet_of shares, [])
flush false shares = ([], shares)
