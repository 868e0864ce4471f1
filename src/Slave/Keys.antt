-- ===== src/Slave/Keys.antt =====
-- The wallet that the sender recovers from a cache key.
use go_pool.Base.{
  ℕ, zero, suc, ◌+◌, ◌≡◌, ◌≢◌, refl, false, [], ◌∷◌, ◌++◌, some, arith, length, get_elem?, lt→ltb,
  length-append, take-append, append_assoc, All, ap, ◌∙◌, sym,
}
use native.Mathlib.Nat.{add-zero, zero-add}
use go_pool.Base.Bytes.{Bytes}
use go_pool.Slave.{key_of, colon, is_colon, scan_colon, wallet_of_key}

abbrev pub NoColon : Bytes → Type 0
NoColon = All (λ b. b ≢ colon)

at_colon : (w k : Bytes) → get_elem? (w ++ (colon ∷ k)) (length w) ≡ some colon
at_colon [] k = refl
at_colon (b ∷ w) k = at_colon w k

move-suc : (a j : ℕ) → a + suc j ≡ suc (a + j)
move-suc a j = omega arith

suc-add : (a j : ℕ) → suc a + j ≡ suc (a + j)
suc-add a j = omega arith

behind_colon :
    (w k : Bytes) (j : ℕ) → get_elem? (w ++ (colon ∷ k)) (length w + suc j) ≡ get_elem? k j
behind_colon [] k j = rw (move-suc 0 j) (rw (zero-add j))
behind_colon (b ∷ w) k j = rw (suc-add (length w) (suc j)) (behind_colon w k j)

NoColon-at : (k : Bytes) (j : ℕ) → NoColon k → is_colon (get_elem? k j) ≡ false
NoColon-at [] j h = refl
NoColon-at (b ∷ k) zero h = ground arith
NoColon-at (b ∷ k) (suc j) h = NoColon-at k j h.1

scan_behind :
    (w k : Bytes) (j : ℕ)
    → NoColon k
    → scan_colon (length w + suc j) (w ++ (colon ∷ k)) ≡ some (length w)
unfolding scan_colon
scan_behind w k zero h = rw (move-suc (length w) 0) (rw (add-zero (length w)) (rw (at_colon w k)))
scan_behind w k (suc j) h =
    rw (move-suc (length w) (suc j))
      (rw (behind_colon w k j, NoColon-at k j h) (scan_behind w k j h))

-- For a worker id without a colon, the sender takes the wallet itself, if it is not empty, from the
-- key.
pub wallet_of_key-key_of :
    (wallet worker_id : Bytes)
    → wallet ≢ []
    → NoColon worker_id
    → wallet_of_key (key_of wallet worker_id) ≡ wallet
unfolding wallet_of_key
wallet_of_key-key_of [] worker_id ne h = absurd (ne refl)
wallet_of_key-key_of (b ∷ w) worker_id ne h =
    let key : Bytes = key_of (b ∷ w) worker_id in
    let len : length key ≡ length (b ∷ w) + suc (length worker_id) =
      length-append (b ∷ w) (colon ∷ worker_id) in
    rw (lt→ltb 1 (length key) (omega (arith, len))) (
      rw len (
        rw (scan_behind (b ∷ w) worker_id (length worker_id) h)
          (take-append (b ∷ w) (colon ∷ worker_id))))

-- For a worker id with a colon, and a wallet that is not empty, what the sender takes from the key
-- is the wallet with the worker id up to its last colon, which is another wallet.
pub wallet_of_key-colon :
    (wallet front back : Bytes)
    → wallet ≢ []
    → NoColon back
    → let sent = wallet_of_key (key_of wallet (front ++ (colon ∷ back))) in
      (sent ≡ wallet ++ (colon ∷ front)) × (sent ≢ wallet)
wallet_of_key-colon [] front back ne h = absurd (ne refl)
wallet_of_key-colon (b ∷ w) front back ne h =
    let wide : Bytes = (b ∷ w) ++ (colon ∷ front) in
    let eq : wallet_of_key (key_of (b ∷ w) (front ++ (colon ∷ back))) ≡ wide =
      ap wallet_of_key (sym (append_assoc (b ∷ w) (colon ∷ front) (colon ∷ back)))
      ∙ wallet_of_key-key_of wide back (λ e. cc) h in
    (eq, λ same. too_long (b ∷ w) (sym eq ∙ same))
  where
    too_long : (v : Bytes) → v ++ (colon ∷ front) ≢ v
    too_long v e = omega (arith, ap (λ l. length l) e, length-append v (colon ∷ front))
