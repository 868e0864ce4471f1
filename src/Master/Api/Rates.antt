-- ===== src/Master/Api/Rates.antt =====
-- cmd/master/api.go `GetMinerStats` beside `Get5mHashrate` and `Get15mHashrate` of stats.go.
use go_pool.Base.{
  ℕ, suc, ◌+◌, ◌-◌, ◌≡◌, refl, sym, ap, ◌∙◌, List, [], ◌∷◌, Option, none, some, ltb, leb,
  Bool-cases, inl, inr, arith, take,
}
use go_pool.Base.Bytes.{Bytes}
use go_pool.Float.{Float}
use go_pool.Ledger.Store.{Share, Schema, Tables, Db, Halt, done, live, exec}
use go_pool.Ledger.Shares.{
  since, newest_first, of_miner, distinct, workers, get_miner_shares_in_window, get_active_workers,
}
use go_pool.Ledger.Balances.{get_balance, find_balance}
use go_pool.Ledger.Reports.{Withdrawal, get_miner_withdrawals, latest_first, withdrawals_of}
use go_pool.Master.Pplns.{sum_diff}
use go_pool.Master.Stats.{
  Totals, no_totals, collect_totals, get_5m_hashrate, get_15m_hashrate, hashrate,
}
use go_pool.Master.Stats.Rates.{collect_totals-sum_diff}
use go_pool.Master.Api.{MinerStats, age_totals, rate, miner_stats_of, get_miner_stats}

-- The age of a share, or its time: the two loops make the same test.
same_test : (now time age : ℕ) → leb now (time + age) ≡ leb (now - age) time
same_test now time age = ground arith

age_totals-collect_totals :
    (now : ℕ) (xs : List Share) (t : Totals) → age_totals now xs t ≡ collect_totals now xs t
unfolding age_totals collect_totals
age_totals-collect_totals now [] t = refl
age_totals-collect_totals now (x ∷ xs) t =
    rw
      (same_test now x.timestamp 300, same_test now x.timestamp 900, same_test now x.timestamp 3600)
      (age_totals-collect_totals now xs _)

withdrawals_answered :
    (addr : Bytes) (limit : ℕ) (s : Schema) (t : Tables)
    → (paid : Option (List Withdrawal)) × (get_miner_withdrawals addr limit (live s t)
        ≡ (done paid, live s t))
unfolding get_miner_withdrawals exec
withdrawals_answered addr limit s t = elim (Bool-cases s.payment_updated_at) [
  | inl e ↦ (some (take limit (latest_first (withdrawals_of addr t.payments))), rw e refl)
  | inr e ↦ (none, rw e refl)
]

module _ (fl : Float) (coin : fl.F) where
  open fl use {of_nat, div, round}

  rate-hashrate :
      ((n : ℕ) → div (of_nat 0) (of_nat (suc n)) ≡ of_nat 0)
      → (total n : ℕ) (xs : List Share) → total ≡ sum_diff xs 0
      → rate fl coin total (suc n) ≡ hashrate fl (suc n) xs
  rate-hashrate zero_rate total n xs e = elim (Bool-cases (ltb 0 total)) [
    | inl some_share ↦ rw some_share (ap (λ d. div (of_nat d) (of_nat (suc n))) e)
    | inr no_share ↦
        let is_zero : total ≡ 0 = ground arith in
        let sum_zero : sum_diff xs 0 ≡ 0 = sym e ∙ is_zero in
        rw no_share (sym (ap (λ d. div (of_nat d) (of_nat (suc n))) sum_zero ∙ zero_rate n))
  ]

  -- On a ledger that answers, the statistics of a miner show the rates of 5 and 15 minutes that
  -- `Get5mHashrate` and `Get15mHashrate` return: the one query of an hour of shares, sorted by their
  -- age, and the two queries by time agree, whatever the sums wrap around to. Of the floats it needs
  -- that 0 over a positive number is 0.
  pub get_miner_stats_rates :
      ((n : ℕ) → div (of_nat 0) (of_nat (suc n)) ≡ of_nat 0)
      → (now : ℕ) (addr : Bytes) (s : Schema) (t : Tables)
      → (m : MinerStats fl coin) × (get_miner_stats fl coin now addr (live s t)
          ≡ (done m, live s t))
        × (get_5m_hashrate fl now addr (live s t) ≡ (done m.hashrate_5m, live s t))
        × (get_15m_hashrate fl now addr (live s t) ≡ (done m.hashrate_15m, live s t))
  unfolding get_miner_stats get_5m_hashrate get_15m_hashrate get_balance get_miner_shares_in_window
      get_active_workers exec
  get_miner_stats_rates zero_rate now addr s t =
      let (paid, e) = withdrawals_answered addr 10 s t in
      let own : List Share = of_miner addr t.shares in
      let hour : List Share = newest_first (since (now - 3600) own) in
      let loops : age_totals now hour no_totals ≡ collect_totals now hour no_totals =
        age_totals-collect_totals now hour no_totals in
      let (e5, e15, _) = collect_totals-sum_diff now own in
      let m : MinerStats fl coin =
        miner_stats_of fl coin now addr (find_balance now addr t.balances) hour
          (some (distinct (workers (since (now - 3600) own)))) paid in
      (
        m,
        rw e refl,
        shown (age_totals now hour no_totals).diff_5m 299 (newest_first (since (now - 300) own))
            (ap (λ u. u.diff_5m) loops ∙ e5),
        shown (age_totals now hour no_totals).diff_15m 899 (newest_first (since (now - 900) own))
            (ap (λ u. u.diff_15m) loops ∙ e15),
      )
    where
      shown :
          (total n : ℕ) (xs : List Share)
          → total ≡ sum_diff xs 0
          → ◌≡◌ {A = Halt fl.F × Db}
              (done (round (hashrate fl (suc n) xs)), live s t)
              (done (round (rate fl coin total (suc n))), live s t)
      shown total n xs e =
          ap (λ f. (done (round f), live s t)) (sym (rate-hashrate zero_rate total n xs e))
