-- ===== src/Master/Stats/Groups.antt =====
-- cmd/master/stats_collector.go `collectMinerStats`: the groups by miner and the rows of the charts.
use go_pool.Base.{
  ℕ, ◌-◌, ◌≡◌, refl, sym, ap, subst, ◌∙◌, true, List, [], ◌∷◌, ◌++◌, ◌⊎◌, Option, none, some,
  if◌then◌else◌, Bool-cases, inl, inr, map, append_assoc, append-nil,
}
use go_pool.Base.Bytes.{Bytes, bytes_eq, bytes_eq_iff}
use go_pool.Base.Assoc.{Assoc, lookup, insert, lookup-insert, IsMap, IsMap-insert, bytes_keys}
use go_pool.Float.{Float}
use go_pool.Ledger.Store.{Share, HashrateRow, Schema, Tables, done, live, exec}
use go_pool.Ledger.Shares.{
  since, newest_first, of_miner, get_shares_in_window, get_miner_shares_in_window,
}
use go_pool.Ledger.Shares.Miners.{of_miner-newest_first, of_miner-since}
use go_pool.Ledger.Charts.{drop_hashrate, store_miner_hashrate}
use go_pool.Master.Stats.{
  no_totals, collect_totals, group_shares, or_empty, hashrate, miner_row, store_rows,
  collect_miner_stats,
}
use go_pool.Master.Stats.Rates.{collect_totals-sum_diff}

-- The entry of a map for a list.
abbrev entry : List Share → Option (List Share)
entry [] = none
entry (x ∷ xs) = some (x ∷ xs)

or_empty-entry : (xs : List Share) → or_empty (entry xs) ≡ xs
or_empty-entry [] = refl
or_empty-entry (x ∷ xs) = refl

entry_snoc : (xs : List Share) (x : Share) → entry (xs ++ (x ∷ [])) ≡ some (xs ++ (x ∷ []))
entry_snoc [] x = refl
entry_snoc (y ∷ ys) x = refl

lookup-group_shares :
    (addr : Bytes) (xs ys : List Share) (m : Assoc Bytes (List Share))
    → lookup addr m ≡ entry ys
    → lookup addr (group_shares xs m) ≡ entry (ys ++ of_miner addr xs)
unfolding group_shares
lookup-group_shares addr [] ys m h = h ∙ ap entry (sym (append-nil ys))
lookup-group_shares addr (x ∷ xs) ys m h =
    let old : List Share = or_empty (lookup x.miner_addr m) in
    let m' : Assoc Bytes (List Share) = insert x.miner_addr (old ++ (x ∷ [])) m in
    let there : lookup addr m'
        ≡ (if bytes_eq x.miner_addr addr then some (old ++ (x ∷ [])) else lookup addr m) =
      lookup-insert addr x.miner_addr (old ++ (x ∷ [])) m in
    elim (Bool-cases (bytes_eq x.miner_addr addr)) [
      | inl own ↦ rw own (
          lookup-group_shares addr xs (ys ++ (x ∷ [])) m'
            (there ∙ rw own (grown ((bytes_eq_iff x.miner_addr addr).0 own)))
          ∙ ap entry (append_assoc ys (x ∷ []) (of_miner addr xs)))
      | inr other ↦ rw other (lookup-group_shares addr xs ys m' (there ∙ rw other h))
    ]
  where
    grown :
        x.miner_addr ≡ addr
        → some (or_empty (lookup x.miner_addr m) ++ (x ∷ [])) ≡ entry (ys ++ (x ∷ []))
    grown same =
        ap (λ l. some (l ++ (x ∷ [])))
          (ap (λ k. or_empty (lookup k m)) same ∙ ap or_empty h ∙ or_empty-entry ys)
        ∙ sym (entry_snoc ys x)

IsMap-group_shares :
    (xs : List Share) (m : Assoc Bytes (List Share)) → IsMap m → IsMap (group_shares xs m)
unfolding group_shares
IsMap-group_shares [] m h = h
IsMap-group_shares (x ∷ xs) m h =
    let group : List Share = or_empty (lookup x.miner_addr m) ++ (x ∷ []) in
    IsMap-group_shares xs (insert x.miner_addr group m) (IsMap-insert x.miner_addr group m h)

-- The rows of a miner.
abbrev pub rows_of : Bytes → List HashrateRow → List HashrateRow
rows_of addr [] = []
rows_of addr (r ∷ rs) =
    let rest = rows_of addr rs in if bytes_eq r.miner_addr addr then r ∷ rest else rest

-- What the stores leave of the table.
abbrev pub store_each : List HashrateRow → List HashrateRow → List HashrateRow
store_each [] table = table
store_each (r ∷ rs) table = store_each rs (drop_hashrate r.miner_addr r.timestamp table ++ (r ∷ []))

store_miner_hashrate_stored :
    (r : HashrateRow) (s : Schema) (t : Tables)
    → s.has_miner_history ≡ true
    → store_miner_hashrate r (live s t) ≡ (
      done (some tt),
      live s (record t { miner_hashrates = store_each (r ∷ []) t.miner_hashrates }),
    )
unfolding store_miner_hashrate exec
store_miner_hashrate_stored r s t h = rw h refl

module _ (fl : Float) where
  open fl use {of_nat, div, bits}

  abbrev row_of : ℕ → Bytes → Option (List Share) → List HashrateRow
  row_of now addr none = []
  row_of now addr (some xs) = miner_row fl now (addr, xs) ∷ []

  rows_of-map :
      (now : ℕ) (addr : Bytes) (m : Assoc Bytes (List Share))
      → IsMap m
      → rows_of addr (map (miner_row fl now) m) ≡ row_of now addr (lookup addr m)
  unfolding miner_row
  rows_of-map now addr [] h = refl
  rows_of-map now addr ((k, xs) ∷ m) h = elim (Bool-cases (bytes_eq k addr)) [
    | inl same ↦
        let e : k ≡ addr = (bytes_eq_iff k addr).0 same in
        let rest : rows_of addr (map (miner_row fl now) m) ≡ [] =
          rows_of-map now addr m h.1
          ∙ ap (row_of now addr) (subst (λ j. lookup j m ≡ none) e h.0) in
        rw same (rw rest (ap (λ a. miner_row fl now (a, xs) ∷ []) e))
    | inr other ↦ rw other (rows_of-map now addr m h.1)
  ]

  store_rows_stored :
      (now : ℕ) (m : Assoc Bytes (List Share)) (s : Schema) (t : Tables)
      → s.has_miner_history ≡ true
      → store_rows fl now m (live s t) ≡ (
        done tt,
        live s (record t {
          miner_hashrates = store_each (map (miner_row fl now) m) t.miner_hashrates;
        }),
      )
  unfolding store_rows
  store_rows_stored now [] s t h = refl
  store_rows_stored now (g ∷ m) s t h =
      rw (store_miner_hashrate_stored (miner_row fl now g) s t h) (
        store_rows_stored now m s
          (record t { miner_hashrates = store_each (miner_row fl now g ∷ []) t.miner_hashrates }) h)

  -- The 64 bits are those of the hashrate over the miner's own query of some seconds.
  abbrev pub IsRate : ℕ → Schema → Tables → Bytes → ℕ → ℕ → Type 0
  IsRate now s t addr seconds b =
      (xs : List Share) × (get_miner_shares_in_window addr (now - seconds) (live s t)
        ≡ (done (some xs), live s t))
      × (b ≡ bits (hashrate fl seconds xs))

  -- The miner has no share of the last hour and no row, or a share of it and one row, with its three
  -- rates.
  abbrev pub IsCharted : ℕ → Schema → Tables → List HashrateRow → Bytes → Type 0
  IsCharted now s t rows addr =
      ((get_miner_shares_in_window addr (now - 3600) (live s t) ≡ (done (some []), live s t))
        × (rows_of addr rows ≡ []))
      ⊎ ((x : Share) × (xs : List Share) × (r : HashrateRow) × (get_miner_shares_in_window addr
              (now - 3600) (live s t)
            ≡ (done (some (x ∷ xs)), live s t))
          × (rows_of addr rows ≡ r ∷ [])
          × (r.timestamp ≡ now)
          × IsRate now s t addr 300 r.hashrate_5m
          × IsRate now s t addr 900 r.hashrate_15m
          × IsRate now s t addr 3600 r.hashrate_1h)

  charted :
      (now : ℕ) (s : Schema) (t : Tables) (rows : List HashrateRow) (addr : Bytes)
      (hour : List Share)
      → hour ≡ newest_first (since (now - 3600) (of_miner addr t.shares))
      → rows_of addr rows ≡ row_of now addr (entry hour)
      → IsCharted now s t rows addr
  unfolding get_miner_shares_in_window exec miner_row
  charted now s t rows addr [] e h = inl (ap (λ xs. (done (some xs), live s t)) (sym e), h)
  charted now s t rows addr (x ∷ xs) e h =
      let (e5, e15, e60) = collect_totals-sum_diff now (of_miner addr t.shares) in
      inr (
        x,
        xs,
        miner_row fl now (addr, x ∷ xs),
        ap (λ l. (done (some l), live s t)) (sym e),
        h,
        refl,
        (_, refl, rated 300 (ap (λ l. (collect_totals now l no_totals).diff_5m) e ∙ e5)),
        (_, refl, rated 900 (ap (λ l. (collect_totals now l no_totals).diff_15m) e ∙ e15)),
        (_, refl, rated 3600 (ap (λ l. (collect_totals now l no_totals).diff_1h) e ∙ e60)),
      )
    where
      rated :
          {n m : ℕ} (seconds : ℕ)
          → n ≡ m
          → bits (div (of_nat n) (of_nat seconds)) ≡ bits (div (of_nat m) (of_nat seconds))
      rated seconds same = ap (λ d. bits (div (of_nat d) (of_nat seconds))) same

  -- On a ledger that answers and has the table, a collection stores rows such that each miner with a
  -- share of the last hour has exactly one, of the time of the collection, whose rates of 5 minutes,
  -- 15 minutes and one hour are those over the miner's own queries; a miner without has none. The
  -- grouping of all shares by miner thus agrees with a query for each miner.
  pub collect_miner_stats-IsCharted :
      (now : ℕ) (s : Schema) (t : Tables)
      → s.has_miner_history ≡ true
      → (rows : List HashrateRow) × (collect_miner_stats fl now (live s t)
          ≡ (done tt, live s (record t { miner_hashrates = store_each rows t.miner_hashrates })))
        × ((addr : Bytes) → IsCharted now s t rows addr)
  unfolding collect_miner_stats get_shares_in_window exec
  collect_miner_stats-IsCharted now s t h =
      let shares : List Share = newest_first (since (now - 3600) t.shares) in
      let groups : Assoc Bytes (List Share) = group_shares shares [] in
      (
        map (miner_row fl now) groups,
        store_rows_stored now groups s t h,
        λ addr.
            charted now s t (map (miner_row fl now) groups) addr (of_miner addr shares)
              (of_miner-newest_first addr (since (now - 3600) t.shares)
                ∙ ap newest_first (of_miner-since addr (now - 3600) t.shares))
              (rows_of-map now addr groups (IsMap-group_shares shares [] tt)
                ∙ ap (row_of now addr) (lookup-group_shares addr shares [] [] refl)),
      )
