-- ===== src/Slave/Totals.antt =====
-- What the cache holds after a run of shares, and what a flush sends.
use go_pool.Base.{
  ℕ, ◌+◌, ◌%◌, ◌^◌, ◌<◌, ◌≡◌, refl, List, [], ◌∷◌, some, arith, if◌then◌else◌, length, ap, ap₂, ◌∙◌,
  ◌≢◌, true,
}
use go_pool.Base.Bytes.{Bytes, bytes_eq, bytes_eq→eq, bytes_eq_refl}
use go_pool.Base.Assoc.{Assoc, lookup, bytes_keys, lookup-insert}
use native.Mathlib.Nat.{mod-eq_of_lt, add-zero, zero-add}
use go_pool.Slave.{ShareCache, cached, key_of, cache_share_with_worker, share_packet, flush}
use go_pool.Slave.Keys.{NoColon, wallet_of_key-key_of}

-- A share as a miner's connection hands it over.
abbrev pub CachedShare : Type 0
CachedShare = Bytes × Bytes × ℕ

unfoldable pub cache_all : List CachedShare → Assoc Bytes ShareCache → Assoc Bytes ShareCache
cache_all [] m = m
cache_all ((wallet, worker_id, diff) ∷ shares) m =
    cache_all shares (cache_share_with_worker wallet worker_id diff m)

-- How many shares of a run have a key, and their difficulties together.
abbrev pub count_of : Bytes → List CachedShare → ℕ
count_of key [] = 0
count_of key ((wallet, worker_id, diff) ∷ shares) =
    (if bytes_eq (key_of wallet worker_id) key then 1 else 0) + count_of key shares

abbrev pub diff_of : Bytes → List CachedShare → ℕ
diff_of key [] = 0
diff_of key ((wallet, worker_id, diff) ∷ shares) =
    (if bytes_eq (key_of wallet worker_id) key then diff else 0) + diff_of key shares

abbrev num_at : Bytes → Assoc Bytes ShareCache → ℕ
num_at key m = (cached (lookup key m)).num_shares

abbrev total_at : Bytes → Assoc Bytes ShareCache → ℕ
total_at key m = (cached (lookup key m)).total_diff

lookup-cache_share_with_worker :
    (wallet worker_id : Bytes) (diff : ℕ) (key : Bytes) (m : Assoc Bytes ShareCache)
    → let x = cached (lookup (key_of wallet worker_id) m) in
      lookup key (cache_share_with_worker wallet worker_id diff m) ≡ (
        if bytes_eq (key_of wallet worker_id) key
        then some (record {
          num_shares = (x.num_shares + 1) % 2 ^ 32;
          total_diff = (x.total_diff + diff) % 2 ^ 64;
          worker_id = worker_id;
        })
        else lookup key m)
unfolding cache_share_with_worker
lookup-cache_share_with_worker wallet worker_id diff key m =
    lookup-insert key (key_of wallet worker_id) _ m

step_at :
    (wallet worker_id : Bytes) (diff : ℕ) (key : Bytes) (m : Assoc Bytes ShareCache)
    → let m' = cache_share_with_worker wallet worker_id diff m in
      let same = bytes_eq (key_of wallet worker_id) key in
      (num_at key m' ≡ (if same then (num_at key m + 1) % 2 ^ 32 else num_at key m))
      × (total_at key m' ≡ (if same then (total_at key m + diff) % 2 ^ 64 else total_at key m))
step_at wallet worker_id diff key m = ground (
  arith,
  lookup-cache_share_with_worker wallet worker_id diff key m,
  bytes_eq→eq (key_of wallet worker_id) key,
)

run_from :
    (shares : List CachedShare) (key : Bytes) (m : Assoc Bytes ShareCache)
    → num_at key m + count_of key shares < 2 ^ 32
    → total_at key m + diff_of key shares < 2 ^ 64
    → (num_at key (cache_all shares m) ≡ num_at key m + count_of key shares)
      × (total_at key (cache_all shares m) ≡ total_at key m + diff_of key shares)
unfolding cache_all
run_from [] key m h k = (omega arith, omega arith)
run_from ((wallet, worker_id, diff) ∷ shares) key m h k =
    let m' = cache_share_with_worker wallet worker_id diff m in
    ground (arith, step_at wallet worker_id diff key m, run_from shares key m')

-- From an empty cache the entry of a key counts the shares with that key and adds up their
-- difficulties, where the count fits a uint32 and the sum a uint64.
pub cache_all_totals :
    (shares : List CachedShare) (key : Bytes)
    → count_of key shares < 2 ^ 32
    → diff_of key shares < 2 ^ 64
    → let entry = cached (lookup key (cache_all shares [])) in
      (entry.num_shares ≡ count_of key shares) × (entry.total_diff ≡ diff_of key shares)
cache_all_totals shares key h k =
    let (n, d) = run_from shares key [] (omega arith) (omega arith) in (omega arith, omega arith)

-- Shares of one wallet and one worker.
abbrev pub run : Bytes → Bytes → List ℕ → List CachedShare
run wallet worker_id [] = []
run wallet worker_id (d ∷ ds) = (wallet, worker_id, d) ∷ run wallet worker_id ds

abbrev pub sum : List ℕ → ℕ
sum [] = 0
sum (d ∷ ds) = d + sum ds

abbrev entry : Bytes → ℕ → ℕ → ShareCache
entry worker_id n total = record { num_shares = n; total_diff = total; worker_id = worker_id }

cache_again :
    (wallet worker_id : Bytes) (d n total : ℕ)
    → n + 1 < 2 ^ 32
    → total + d < 2 ^ 64
    → let key = key_of wallet worker_id in
      cache_share_with_worker wallet worker_id d ((key, entry worker_id n total) ∷ [])
      ≡ (key, entry worker_id (n + 1) (total + d)) ∷ []
unfolding cache_share_with_worker
cache_again wallet worker_id d n total h k =
    rw (bytes_eq_refl (key_of wallet worker_id)) (rw (mod-eq_of_lt h, mod-eq_of_lt k))

cache_run :
    (wallet worker_id : Bytes) (ds : List ℕ) (n total : ℕ)
    → n + length ds < 2 ^ 32
    → total + sum ds < 2 ^ 64
    → let key = key_of wallet worker_id in
      cache_all (run wallet worker_id ds) ((key, entry worker_id n total) ∷ [])
      ≡ (key, entry worker_id (n + length ds) (total + sum ds)) ∷ []
unfolding cache_all
cache_run wallet worker_id [] n total h k = rw (add-zero n, add-zero total)
cache_run wallet worker_id (d ∷ ds) n total h k =
    ap (cache_all (run wallet worker_id ds))
      (cache_again wallet worker_id d n total (omega arith) (omega arith))
    ∙ cache_run wallet worker_id ds (n + 1) (total + d) (omega arith) (omega arith)
    ∙ ap₂ (λ a b. (key_of wallet worker_id, entry worker_id a b) ∷ []) (omega arith) (omega arith)

cache_first :
    (wallet worker_id : Bytes) (d : ℕ)
    → d < 2 ^ 64
    → cache_share_with_worker wallet worker_id d []
      ≡ (key_of wallet worker_id, entry worker_id 1 d) ∷ []
unfolding cache_share_with_worker
cache_first wallet worker_id d h = rw (zero-add d) (rw (mod-eq_of_lt h))

first_run :
    (wallet worker_id : Bytes) (d : ℕ) (ds : List ℕ)
    → length (d ∷ ds) < 2 ^ 32
    → sum (d ∷ ds) < 2 ^ 64
    → cache_all (run wallet worker_id (d ∷ ds)) []
      ≡ (key_of wallet worker_id, entry worker_id (length (d ∷ ds)) (sum (d ∷ ds))) ∷ []
unfolding cache_all
first_run wallet worker_id d ds h k =
    ap (cache_all (run wallet worker_id ds)) (cache_first wallet worker_id d (omega arith))
    ∙ cache_run wallet worker_id ds 1 d (omega arith) (omega arith)
    ∙ ap₂ (λ a b. (key_of wallet worker_id, entry worker_id a b) ∷ []) (omega arith) refl

-- With a connection, a flush sends one packet for a run of shares of one worker, with the number of
-- the shares and the sum of their difficulties, and empties the cache. The wallet is not empty, the
-- worker id has no colon, and the count and the sum fit a uint32 and a uint64.
pub flush-run :
    (wallet worker_id : Bytes) (d : ℕ) (ds : List ℕ)
    → wallet ≢ []
    → NoColon worker_id
    → length (d ∷ ds) < 2 ^ 32
    → sum (d ∷ ds) < 2 ^ 64
    → flush true (cache_all (run wallet worker_id (d ∷ ds)) [])
      ≡ (share_packet (length (d ∷ ds)) wallet worker_id (sum (d ∷ ds)) ∷ [], [])
unfolding flush
flush-run wallet worker_id d ds ne nc h k =
    ap (flush true) (first_run wallet worker_id d ds h k)
    ∙ ap (λ w. (share_packet (length (d ∷ ds)) w worker_id (sum (d ∷ ds)) ∷ [], []))
        (wallet_of_key-key_of wallet worker_id ne nc)
