-- ===== src/Master/Skipped.antt =====
-- What `UpdatePendingBals` does with a transfer that it could not process.
use go_pool.Base.{
  ℕ, zero, suc, ◌+◌, ◌*◌, ◌%◌, ◌^◌, ◌≤◌, ◌<◌, ◌≡◌, ◌⊎◌, refl, sym, ap, ◌∙◌, subst, Bool, true,
  false, List, [], ◌∷◌, some, length, All, leb, List-cases, Bool-cases, inl, inr, arith,
}
use go_pool.Base.Bytes.{Bytes}
use go_pool.Float.{Float}
use go_pool.Ledger.Store.{Tables, Schema, Db, done, live, exec, then_do, M, ◌>>=◌}
use go_pool.Ledger.Blocks.{
  is_transfer_processed, get_last_processed_height, update_last_processed_height,
}
use native.Mathlib.Nat.{mod-eq_of_lt}
use go_pool.Master.Transfers.{
  TransferInfo, place_transfer, sort_transfers, highest, count_rounds, transfer_round,
  transfer_rounds, init_transfer_tracking, update_pending_bals, finish, go_through,
}

-- A database that fails the next `n` calls.
abbrev pub fails : ℕ → List Bool
fails zero = []
fails (suc n) = true ∷ fails n

abbrev pub failing : ℕ → Schema → Tables → Db
failing n s t = record { schema = s; tables = t; faults = fails n; taken = false }

-- Each transfer is at most as high as those behind it.
abbrev IsAscending : List TransferInfo → Type 0
IsAscending [] = Unit {0}
IsAscending (x ∷ xs) = All (λ y. x.height ≤ y.height) xs × IsAscending xs

above :
    (h k : ℕ) (xs : List TransferInfo)
    → h ≤ k
    → All (λ y. k ≤ y.height) xs
    → All (λ y. h ≤ y.height) xs
above h k [] l a = tt
above h k (x ∷ xs) l a = (omega (arith, a.0), above h k xs l a.1)

above-place :
    (h : ℕ) (x : TransferInfo) (ys : List TransferInfo)
    → h ≤ x.height
    → All (λ y. h ≤ y.height) ys
    → All (λ y. h ≤ y.height) (place_transfer x ys)
unfolding place_transfer
above-place h x [] k a = (k, tt)
above-place h x (y ∷ ys) k a = elim (Bool-cases (leb x.height y.height)) [
  | inl front ↦ rw front (k, a)
  | inr back ↦ rw back (a.0, above-place h x ys k a.1)
]

IsAscending-place :
    (x : TransferInfo) (ys : List TransferInfo) → IsAscending ys → IsAscending (place_transfer x ys)
unfolding place_transfer
IsAscending-place x [] h = (tt, tt)
IsAscending-place x (y ∷ ys) h = elim (Bool-cases (leb x.height y.height)) [
  | inl front ↦
      let lower : x.height ≤ y.height = ground arith in
      rw front ((lower, above x.height y.height ys lower h.0), h)
  | inr back ↦
      let higher : y.height ≤ x.height = ground arith in
      rw back (above-place y.height x ys higher h.0, IsAscending-place x ys h.1)
]

sort_transfers-IsAscending : (xs : List TransferInfo) → IsAscending (sort_transfers xs)
unfolding sort_transfers
sort_transfers-IsAscending [] = tt
sort_transfers-IsAscending (x ∷ xs) =
    IsAscending-place x (sort_transfers xs) (sort_transfers-IsAscending xs)

length-place_transfer :
    (x : TransferInfo) (ys : List TransferInfo) → length (place_transfer x ys) ≡ suc (length ys)
unfolding place_transfer
length-place_transfer x [] = refl
length-place_transfer x (y ∷ ys) = elim (Bool-cases (leb x.height y.height)) [
  | inl front ↦ rw front refl
  | inr back ↦ rw back (ap suc (length-place_transfer x ys))
]

length-sort_transfers : (xs : List TransferInfo) → length (sort_transfers xs) ≡ length xs
unfolding sort_transfers
length-sort_transfers [] = refl
length-sort_transfers (x ∷ xs) =
    length-place_transfer x (sort_transfers xs) ∙ ap suc (length-sort_transfers xs)

module _ (P : TransferInfo → Type 0) where
  All-place :
      (x : TransferInfo) (ys : List TransferInfo) → All P (place_transfer x ys) → P x × All P ys
  unfolding place_transfer
  All-place x [] a = (a.0, tt)
  All-place x (y ∷ ys) a = elim (Bool-cases (leb x.height y.height)) [
    | inl front ↦ rw front at a
    | inr back ↦
        let b : All P (y ∷ place_transfer x ys) = rw back at a in
        let c : P x × All P ys = All-place x ys b.1 in (c.0, (b.0, c.1))
  ]

  All-sort_transfers : (xs : List TransferInfo) → All P (sort_transfers xs) → All P xs
  unfolding sort_transfers
  All-sort_transfers [] a = tt
  All-sort_transfers (x ∷ xs) a =
      let b : P x × All P (sort_transfers xs) = All-place x (sort_transfers xs) a in
      (b.0, All-sort_transfers xs b.1)

-- A transfer of the list has this height.
abbrev pub HasHeight : ℕ → List TransferInfo → Type 0
HasHeight top [] = ⊥
HasHeight top (x ∷ xs) = (x.height ≡ top) ⊎ HasHeight top xs

HasHeight-place :
    (top : ℕ) (x : TransferInfo) (ys : List TransferInfo)
    → HasHeight top (place_transfer x ys)
    → HasHeight top (x ∷ ys)
unfolding place_transfer
HasHeight-place top x [] h = h
HasHeight-place top x (y ∷ ys) h = elim (Bool-cases (leb x.height y.height)) [
  | inl front ↦ rw front at h
  | inr back ↦
      let h' : HasHeight top (y ∷ place_transfer x ys) = rw back at h in
      elim h' [
        | inl here ↦ inr (inl here)
        | inr there ↦ elim (HasHeight-place top x ys there) [
          | inl first ↦ inl first
          | inr rest ↦ inr (inr rest)
        ]
      ]
]

HasHeight-sort_transfers :
    (top : ℕ) (xs : List TransferInfo) → HasHeight top (sort_transfers xs) → HasHeight top xs
unfolding sort_transfers
HasHeight-sort_transfers top [] h = h
HasHeight-sort_transfers top (x ∷ xs) h = elim (HasHeight-place top x (sort_transfers xs) h) [
  | inl here ↦ inl here
  | inr there ↦ inr (HasHeight-sort_transfers top xs there)
]

HasHeight-small :
    (top : ℕ) (xs : List TransferInfo)
    → HasHeight top xs
    → All (λ v. v.height + 1 < 2 ^ 64) xs
    → top + 1 < 2 ^ 64
HasHeight-small top [] h a = absurd h
HasHeight-small top (x ∷ xs) (inl here) a = omega (arith, here, a.0)
HasHeight-small top (x ∷ xs) (inr there) a = HasHeight-small top xs there a.1

highest-HasHeight :
    (z : TransferInfo) (zs : List TransferInfo) → HasHeight (highest z.height zs) (z ∷ zs)
highest-HasHeight z [] = inl refl
highest-HasHeight z (y ∷ ys) = inr (highest-HasHeight y ys)

-- The last height of an ascending list is its highest.
highest_above :
    (h : ℕ) (xs : List TransferInfo)
    → All (λ y. h ≤ y.height) xs
    → IsAscending xs
    → (h ≤ highest h xs) × All (λ y. y.height ≤ highest h xs) xs
highest_above h [] a b = (omega arith, tt)
highest_above h (x ∷ xs) a b =
    let (top, rest) = highest_above x.height xs b.0 b.1 in (omega (arith, a.0, top), (top, rest))

fails-suc : (a n : ℕ) → fails (suc a + n) ≡ true ∷ fails (a + n)
fails-suc a n = let next : suc a + n ≡ suc (a + n) = omega arith in ap fails next

zero_add : (n : ℕ) → 0 + n ≡ n
zero_add n = omega arith

count_rounds-failing :
    (vts : List TransferInfo) (n : ℕ) (s : Schema) (t : Tables)
    → count_rounds vts (failing (length vts + n) s t) ≡ (done tt, failing n s t)
unfolding count_rounds is_transfer_processed
count_rounds-failing [] n s t = ap (λ k. (done tt, failing k s t)) (zero_add n)
count_rounds-failing (vt ∷ vts) n s t =
    rw (fails-suc (length vts) n) (count_rounds-failing vts n s t)

module _ (fl : Float) (fee_address : Bytes) (fee_percent : fl.F) where
  transfer_rounds-failing :
      (now : ℕ) (vts : List TransferInfo) (n min_height : ℕ) (s : Schema) (t : Tables)
      → transfer_rounds fl fee_address fee_percent now vts min_height (failing (length vts + n) s t)
        ≡ (done min_height, failing n s t)
  unfolding transfer_rounds transfer_round is_transfer_processed
  transfer_rounds-failing now [] n min_height s t =
      ap (λ k. (done min_height, failing k s t)) (zero_add n)
  transfer_rounds-failing now (vt ∷ vts) n min_height s t =
      rw (fails-suc (length vts) n) (transfer_rounds-failing now vts n min_height s t)

  go_through-failing :
      (now min_height : ℕ) (z : TransferInfo) (zs : List TransferInfo) (s : Schema) (t : Tables)
      → IsAscending (z ∷ zs)
      → (top : ℕ) × (go_through fl fee_address fee_percent now
            (z ∷ zs)
            min_height
            (failing (length (z ∷ zs) + (length (z ∷ zs) + 0)) s t)
          ≡ (done ((top + 1) % 2 ^ 64), live s (record t { last_processed_height = top })))
        × HasHeight top (z ∷ zs)
        × All (λ v. v.height ≤ top) (z ∷ zs)
  unfolding update_last_processed_height
  go_through-failing now min_height z zs s t h =
      let (top, rest) = highest_above z.height zs h.0 h.1 in
      let rounds : M ℕ = transfer_rounds fl fee_address fee_percent now (z ∷ zs) min_height in
      let last : ℕ → M ℕ = finish fl fee_address fee_percent (z ∷ zs) in
      (
        highest z.height zs,
        ap (then_do (λ _. rounds >>= last))
              (count_rounds-failing (z ∷ zs) (length (z ∷ zs) + 0) s t)
            ∙ ap (then_do last) (transfer_rounds-failing now (z ∷ zs) 0 min_height s t),
        highest-HasHeight z zs,
        (top, rest),
      )

  -- Where the database fails each call while the transfers are gone through, none of them is
  -- processed, and yet the next request starts one above the highest of them, and so does the first
  -- one after a restart, which reads the height from the database. Every height and the next one fit
  -- in 64 bits.
  pub update_pending_bals_loses :
      (now min_height : ℕ) (x : TransferInfo) (xs : List TransferInfo) (s : Schema) (t : Tables)
      → All (λ v. v.height + 1 < 2 ^ 64) (x ∷ xs)
      → (top : ℕ) × (update_pending_bals fl fee_address fee_percent now
            (some (x ∷ xs))
            min_height
            (failing (2 * length (x ∷ xs)) s t)
          ≡ (done (top + 1), live s (record t { last_processed_height = top })))
        × (init_transfer_tracking (live s (record t { last_processed_height = top }))
            ≡ (done (top + 1), live s (record t { last_processed_height = top })))
        × HasHeight top (x ∷ xs)
        × All (λ v. v.height ≤ top) (x ∷ xs)
  unfolding update_pending_bals init_transfer_tracking get_last_processed_height exec
  update_pending_bals_loses now min_height x xs s t fit =
      elim (List-cases (sort_transfers (x ∷ xs))) [
        | inl e ↦ absurd (omega (arith, length-sort_transfers (x ∷ xs), ap length e))
        | inr (z, zs, e) ↦
            let calls : 2 * length (x ∷ xs) ≡ length (z ∷ zs) + (length (z ∷ zs) + 0) =
              omega (arith, length-sort_transfers (x ∷ xs), ap length e) in
            let (top, runs, reached, above_all) =
              go_through-failing now min_height z zs s t
                (subst IsAscending e (sort_transfers-IsAscending (x ∷ xs))) in
            let one : HasHeight top (x ∷ xs) =
              HasHeight-sort_transfers top (x ∷ xs) (subst (HasHeight top) (sym e) reached) in
            let small : top + 1 < 2 ^ 64 = HasHeight-small top (x ∷ xs) one fit in
            let plain : (top + 1) % 2 ^ 64 ≡ top + 1 = mod-eq_of_lt small in
            (
              top,
              ap
                    (λ n.
                      go_through fl fee_address fee_percent now (sort_transfers (x ∷ xs)) min_height
                        (failing n s t))
                    calls
                  ∙ ap
                      (λ l.
                        go_through fl fee_address fee_percent now l min_height
                          (failing (length (z ∷ zs) + (length (z ∷ zs) + 0)) s t))
                      e
                  ∙ runs
                  ∙ ap (λ n. (done n, live s (record t { last_processed_height = top }))) plain,
              ap (λ n. (done n, live s (record t { last_processed_height = top }))) plain,
              one,
              All-sort_transfers (λ v. v.height ≤ top) (x ∷ xs)
                  (subst (All (λ v. v.height ≤ top)) (sym e) above_all),
            )
      ]
