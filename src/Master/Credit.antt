-- ===== src/Master/Credit.antt =====
-- What the master records for the shares of a slave.
use go_pool.Base.{
  ℕ, zero, suc, ◌+◌, ◌*◌, ◌^◌, ◌<◌, ◌≡◌, refl, sym, ◌&&◌, true, false, List, [], ◌∷◌, ◌++◌, none,
  some, ok, arith, lt→ltb, length, append-nil, append_assoc, ap, ◌∙◌, if◌then◌else◌,
}
use go_pool.Base.Bytes.{Bytes}
use go_pool.Address.{is_address_valid}
use go_pool.Ledger.Store.{Share, Schema, Tables, done, shipped, live, fits, then_do}
use go_pool.Ledger.Shares.{add_share, block_fits}
use go_pool.Slave.{share_packet}
use go_pool.Slave.Totals.{sum}
use go_pool.Master.Protocol.{parse_message-share_packet}
use go_pool.Master.Handler.{
  Config, Master, add_shares, found_share, on_share_found, on_message, apply_packet, with_db,
}

-- `n` rows for one share.
abbrev pub copies : ℕ → Share → List Share
copies zero x = []
copies (suc n) x = x ∷ copies n x

-- The difficulty of a list of shares.
abbrev pub total_diff : List Share → ℕ
total_diff [] = 0
total_diff (x ∷ xs) = x.difficulty + total_diff xs

pub total_diff-append : (xs ys : List Share) → total_diff (xs ++ ys) ≡ total_diff xs + total_diff ys
total_diff-append [] ys = omega arith
total_diff-append (x ∷ xs) ys = omega (arith, total_diff-append xs ys)

total_diff-copies : (n : ℕ) (x : Share) → total_diff (copies n x) ≡ n * x.difficulty
total_diff-copies zero x = omega arith
total_diff-copies (suc n) x = grind (arith, total_diff-copies n x)

accepted :
    (s : Schema) (t : Tables) (x : Share)
    → x.block_height ≡ none
    → s.share_without_block ≡ true
    → x.difficulty < 2 ^ 63
    → (fits x.difficulty && block_fits x.block_height s t) ≡ true
accepted s t x b h k = rw (b, h) (rw (lt→ltb x.difficulty (2 ^ 63) k) refl)

add_share_stored :
    (s : Schema) (t : Tables) (x : Share)
    → x.block_height ≡ none
    → s.share_without_block ≡ true
    → x.difficulty < 2 ^ 63
    → add_share x (live s t) ≡ (done (some tt), live s (record t { shares = t.shares ++ (x ∷ []) }))
unfolding add_share
add_share_stored s t x b h k = rw (accepted s t x b h k)

-- On a live database that takes shares without a block, each round adds a row.
add_shares_stored :
    (n : ℕ) (s : Schema) (t : Tables) (x : Share)
    → x.block_height ≡ none
    → s.share_without_block ≡ true
    → x.difficulty < 2 ^ 63
    → add_shares n x (live s t) ≡ (done tt, live s (record t { shares = t.shares ++ copies n x }))
unfolding add_shares
add_shares_stored zero s t x b h k =
    ap (λ l. (done tt, live s (record t { shares = l }))) (sym (append-nil t.shares))
add_shares_stored (suc n) s t x b h k =
    ap (then_do (λ _. add_shares n x)) (add_share_stored s t x b h k)
    ∙ add_shares_stored n s (record t { shares = t.shares ++ (x ∷ []) }) x b h k
    ∙ ap (λ l. (done tt, live s (record t { shares = l })))
        (append_assoc t.shares (x ∷ []) (copies n x))

refused :
    (t : Tables) (x : Share)
    → x.block_height ≡ none
    → (fits x.difficulty && block_fits x.block_height shipped t) ≡ false
refused t x h = rw h (ground arith)

add_share_refused :
    (t : Tables) (x : Share)
    → x.block_height ≡ none
    → add_share x (live shipped t) ≡ (done none, live shipped t)
unfolding add_share
add_share_refused t x h = rw (refused t x h)

add_shares_refused :
    (n : ℕ) (t : Tables) (x : Share)
    → x.block_height ≡ none
    → add_shares n x (live shipped t) ≡ (done tt, live shipped t)
unfolding add_shares
add_shares_refused zero t x h = refl
add_shares_refused (suc n) t x h =
    ap (then_do (λ _. add_shares n x)) (add_share_refused t x h) ∙ add_shares_refused n t x h

module _ (keccak : Bytes → Bytes) (cfg : Config) where
  -- On a database that fails no call and takes shares without a block, a found share of a difficulty
  -- below 2^63 adds its difficulty to the recorded difficulty as often as its count says, and
  -- changes no other table.
  pub on_share_found_credit :
      (now : ℕ) (wallet : Bytes) (diff num_shares : ℕ) (worker_id : Bytes) (s : Schema) (t : Tables)
      → s.share_without_block ≡ true
      → diff < 2 ^ 63
      → (xs : List Share) × (on_share_found keccak cfg now wallet diff num_shares worker_id
            (live s t)
          ≡ (done tt, live s (record t { shares = t.shares ++ xs })))
        × (total_diff (t.shares ++ xs) ≡ total_diff t.shares + num_shares * diff)
  unfolding on_share_found
  on_share_found_credit now wallet diff num_shares worker_id s t h k =
      let addr : Bytes =
        if is_address_valid keccak cfg.addresses wallet then wallet else cfg.fee_address in
      let x : Share = found_share now addr worker_id diff in
      (
        copies num_shares x,
        add_shares_stored num_shares s t x refl h k,
        omega (
          arith,
          total_diff-append t.shares (copies num_shares x),
          total_diff-copies num_shares x,
        ),
      )

  -- On the tables of schema.sql, whose shares need a block, a found share is not recorded: the call
  -- returns and no table changes.
  pub on_share_found-shipped :
      (now : ℕ) (wallet : Bytes) (diff num_shares : ℕ) (worker_id : Bytes) (t : Tables)
      → on_share_found keccak cfg now wallet diff num_shares worker_id (live shipped t)
        ≡ (done tt, live shipped t)
  unfolding on_share_found
  on_share_found-shipped now wallet diff num_shares worker_id t =
      add_shares_refused num_shares t _ refl

  -- The packet of a flush makes the master record the count of the shares times the sum of their
  -- difficulties: for n shares of difficulties d_1 to d_n of one worker it records n * (d_1 + … +
  -- d_n), and changes no other table. The database fails no call and takes shares without a block,
  -- both names are shorter than 2^63 bytes, there are fewer than 2^32 shares, and the sum is below
  -- 2^63.
  pub flushed_run_credit :
      (now conn_id : ℕ) (wallet worker_id : Bytes) (diffs : List ℕ) (s : Schema) (t : Tables)
      (m : Master)
      → s.share_without_block ≡ true
      → length wallet < 2 ^ 63
      → length worker_id < 2 ^ 63
      → length diffs < 2 ^ 32
      → sum diffs < 2 ^ 63
      → (xs : List Share) × (on_message keccak cfg now conn_id
            (share_packet (length diffs) wallet worker_id (sum diffs))
            (record m { db = live s t })
          ≡ ok (done tt, record m { db = live s (record t { shares = t.shares ++ xs }) }))
        × (total_diff (t.shares ++ xs) ≡ total_diff t.shares + length diffs * sum diffs)
  unfolding on_message apply_packet
  flushed_run_credit now conn_id wallet worker_id diffs s t m h hw hi hc hd =
      let (xs, runs, credit) =
        on_share_found_credit now wallet (sum diffs) (length diffs) worker_id s t h hd in
      (
        xs,
        rw
            (
              parse_message-share_packet cfg.use_p2pool (length diffs) wallet worker_id (sum diffs)
                  hc hw hi (omega arith),
              on_message,
            )
            (ap (λ r. ok (with_db m r)) runs),
        credit,
      )
