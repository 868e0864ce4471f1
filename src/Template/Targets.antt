-- ===== src/Template/Targets.antt =====
-- The targets sent to miners, and the difficulties read back from targets.
use go_pool.Base.{
  ℕ, zero, suc, ◌+◌, ◌/◌, ◌^◌, ◌<◌, ◌≤◌, ◌≡◌, refl, [], ◌∷◌, ◌++◌, ok, arith, ltb, ◌==◌,
  if◌then◌else◌, length, Bool-cases, inl, inr, ◌⊎◌, ◌↔◌,
}
use go_pool.Base.Bytes.{Bytes}
use go_pool.Serializer.Encoding.{le_value}
use go_pool.Template.{
  le_digits, pad_zeros, diff_to_short_target, diff_to_target, short_diff_to_diff,
}

-- The digits of a value below 256^k, and the zeros behind them.
le_value-le_digits : (k n : ℕ) → n < 256 ^ k → le_value (le_digits k n) ≡ n
unfolding le_digits le_value
le_value-le_digits zero n h = omega arith
le_value-le_digits (suc k) n h = ground (arith, le_value-le_digits k (n / 256) (omega arith))

length-le_digits : (k n : ℕ) → length (le_digits k n) ≤ k
unfolding le_digits
length-le_digits zero n = omega arith
length-le_digits (suc k) n = ground (arith, length-le_digits k (n / 256))

le_value-zero : (bs : Bytes) → le_value (bs ++ (0 ∷ [])) ≡ le_value bs
unfolding le_value
le_value-zero [] = omega arith
le_value-zero (b ∷ bs) = omega (arith, le_value-zero bs)

length-snoc : (bs : Bytes) (b : ℕ) → length (bs ++ (b ∷ [])) ≡ length bs + 1
length-snoc [] b = omega arith
length-snoc (x ∷ bs) b = omega (arith, length-snoc bs b)

le_value-pad_zeros : (k : ℕ) (bs : Bytes) → le_value (pad_zeros k bs) ≡ le_value bs
unfolding pad_zeros
le_value-pad_zeros zero bs = refl
le_value-pad_zeros (suc k) bs =
    ground (arith, le_value-pad_zeros k (bs ++ (0 ∷ [])), le_value-zero bs)

length-pad_zeros :
    (k : ℕ) (bs : Bytes)
    → 4 ≤ length bs + k
    → length (pad_zeros k bs) ≡ (if ltb (length bs) 4 then 4 else length bs)
unfolding pad_zeros
length-pad_zeros zero bs h = ground arith
length-pad_zeros (suc k) bs h =
    ground (arith, length-pad_zeros k (bs ++ (0 ∷ [])), length-snoc bs 0)

padded_value : (n : ℕ) → n < 256 ^ 4 → le_value (pad_zeros 4 (le_digits 4 n)) ≡ n
padded_value n h = omega (arith, le_value-pad_zeros 4 (le_digits 4 n), le_value-le_digits 4 n h)

padded_length : (n : ℕ) → length (pad_zeros 4 (le_digits 4 n)) ≡ 4
padded_length n =
    ground (arith, length-pad_zeros 4 (le_digits 4 n) (omega arith), length-le_digits 4 n)

-- The short target of any difficulty has four bytes, the quotient of 2^32 - 1 lowest byte first.
pub diff_to_short_target_lem :
    (d : ℕ)
    → (length (diff_to_short_target d) ≡ 4)
      × (le_value (diff_to_short_target d) ≡ (if d == 0 then 0xffffffff else 0xffffffff / d))
unfolding diff_to_short_target
diff_to_short_target_lem d = elim (Bool-cases (d == 0)) [
  | inl z ↦ rw z (refl, unfold le_value in refl)
  | inr nz ↦ rw nz (padded_length (0xffffffff / d), padded_value (0xffffffff / d) (omega arith))
]

quotient_pos : (m d : ℕ) → 0 < d → d ≤ m → 0 < m / d
quotient_pos m d p h = grind arith

quotient_twice : (m d : ℕ) → 0 < d → d ≤ m → d ≤ m / (m / d)
quotient_twice m d p h = grind (arith, quotient_pos m d p h)

quotient_thrice : (m d : ℕ) → 0 < d → d ≤ m → m / (m / (m / d)) ≡ m / d
quotient_thrice m d p h = grind (
  arith,
  quotient_pos m d p h,
  quotient_twice m d p h,
  quotient_twice m (m / d) (quotient_pos m d p h),
)

quotient_zero : (m d : ℕ) → m < d → m / d ≡ 0
quotient_zero m d h = grind arith

-- For a difficulty that is not 0, the short target that is read back stands for a difficulty at
-- least as high, and for the same target; from 2^32 on the target is 0, which is read back as 0.
pub short_diff_to_diff-diff_to_short_target :
    (d : ℕ)
    → 0 < d
    → (e : ℕ) × (short_diff_to_diff (diff_to_short_target d) ≡ ok e)
      × ((d < 2 ^ 32) × (d ≤ e) × (0xffffffff / e ≡ 0xffffffff / d) ⊎ (2 ^ 32 ≤ d) × (e ≡ 0))
unfolding short_diff_to_diff
short_diff_to_diff-diff_to_short_target d p =
    let (len, val) = diff_to_short_target_lem d in
    elim (Bool-cases (ltb d (2 ^ 32))) [
      | inl small ↦ (
        0xffffffff / (0xffffffff / d),
        ground (arith, len, val, quotient_pos 0xffffffff d p),
        inl (
          ground arith,
          quotient_twice 0xffffffff d p (ground arith),
          quotient_thrice 0xffffffff d p (ground arith),
        ),
      )
      | inr large ↦
          (0, ground (arith, len, val, quotient_zero 0xffffffff d), inr (ground arith, refl))
    ]

length-le_digits_full : (k n : ℕ) → (length (le_digits (suc k) n) ≡ suc k) ↔ (256 ^ k ≤ n)
unfolding le_digits
length-le_digits_full zero n = ground arith
length-le_digits_full (suc k) n = ground (arith, length-le_digits_full k (n / 256))

quotient_wide : (d : ℕ) → 0 < d → (256 ^ 7 ≤ 0xffffffffffffffff / d) ↔ (d ≤ 255)
quotient_wide d p = (λ h. grind arith, λ h. grind arith)

-- For a difficulty that is not 0, `DiffToTarget` gives eight bytes exactly up to difficulty 255.
pub length-diff_to_target : (d : ℕ) → 0 < d → (length (diff_to_target d) ≡ 8) ↔ (d ≤ 255)
unfolding diff_to_target
length-diff_to_target d p =
    let q : ℕ = 0xffffffffffffffff / d in
    ground (
      arith,
      length-pad_zeros 4 (le_digits 8 q) (omega arith),
      length-le_digits_full 7 q,
      quotient_wide d p,
    )
