-- ===== src/Master/Api/Answers.antt =====
-- cmd/master/api.go and pplns.go: what the requests to the API are answered with.
use go_pool.Base.{ℕ, ◌≤◌, ◌≡◌, ◌⊎◌, All, true, false, List, [], ◌∷◌, Option}
use go_pool.Base.Bytes.{Bytes}
use go_pool.Float.{Float}
use go_pool.Ledger.Reads.{Reads}
use go_pool.Master.Pplns.{PplnsManager, PplnsConfig}
use go_pool.Master.Api.Requests.{
  Response, pool_page, miner_page, workers_page, missing_address, empty_body, numbers,
}

abbrev pub IsWindow : ℕ → Type 0
IsWindow n = (3600 ≤ n) × (n ≤ 86400)

module _ (fl : Float) (coin : fl.F) where
  open fl use {F, of_nat, div, eq, to_int, round, not_finite}

  -- A page of the pool shows a window of one hour to one day, and the network's difficulty over the
  -- block time.
  abbrev pub IsInBounds : ℕ → Response fl coin → Type 0
  IsInBounds block_time (pool_page p) =
      IsWindow p.pplns_window_seconds
      × (p.net_hr ≡ round (div (of_nat p.network_difficulty) (of_nat block_time)))
  IsInBounds block_time (miner_page p) = Unit {0}
  IsInBounds block_time (workers_page ws) = Unit {0}
  IsInBounds block_time missing_address = Unit {0}
  IsInBounds block_time empty_body = ⊥

  -- One of the numbers is infinite or not a number.
  abbrev pub HasNotFinite : List F → Type 0
  HasNotFinite [] = ⊥
  HasNotFinite (x ∷ xs) = (not_finite x ≡ true) ⊎ HasNotFinite xs

  -- The answer is a page with finite numbers, or has no body in place of a page with another one.
  abbrev pub IsAnswer : ℕ → Response fl coin → Type 0
  IsAnswer block_time r =
      (page : Response fl coin) × IsInBounds block_time page
      × ((All (λ x. not_finite x ≡ false) (numbers fl coin page) × (r ≡ page))
          ⊎ (HasNotFinite (numbers fl coin page) × (r ≡ empty_body)))

  module _ (cfg : PplnsConfig fl) (target block_time now : ℕ) where
    abbrev Fine : Response fl coin × Option (PplnsManager fl) → Type 0
    Fine r = IsAnswer block_time r.0
