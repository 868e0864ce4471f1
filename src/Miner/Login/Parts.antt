-- ===== src/Miner/Login/Parts.antt =====
-- The parts of a login: what the splits of cmd/slave/conn.go find in a text joined from parts.
use go_pool.Base.{ℕ, ◌≡◌, refl, ap, true, false, [], ◌∷◌, ◌++◌, none, some, ◌==◌, ==_refl, arith}
use go_pool.Base.Bytes.{Bytes}
use go_pool.Miner.Text.{contains_byte, split_byte, cut_last, onto_head}

pub contains_byte-append :
    (c : ℕ) (xs ys : Bytes)
    → contains_byte c xs ≡ false
    → contains_byte c ys ≡ false
    → contains_byte c (xs ++ ys) ≡ false
contains_byte-append c [] ys h k = k
contains_byte-append c (x ∷ xs) ys h k = ground (arith, contains_byte-append c xs ys)

pub contains_byte-middle : (c : ℕ) (xs ys : Bytes) → contains_byte c (xs ++ (c ∷ ys)) ≡ true
contains_byte-middle c [] ys = rw (==_refl c) refl
contains_byte-middle c (x ∷ xs) ys = ground (arith, contains_byte-middle c xs ys)

contains_byte-tail :
    (c x : ℕ) (xs : Bytes)
    → contains_byte c (x ∷ xs) ≡ false
    → ((x == c) ≡ false) × (contains_byte c xs ≡ false)
contains_byte-tail c x xs h = ground arith

-- A part without the byte stands alone in front of it.
pub split_byte-part :
    (c : ℕ) (xs ys : Bytes)
    → contains_byte c xs ≡ false
    → split_byte c (xs ++ (c ∷ ys)) ≡ xs ∷ split_byte c ys
unfolding split_byte
split_byte-part c [] ys h = rw (==_refl c) refl
split_byte-part c (x ∷ xs) ys h =
    let (apart, rest) = contains_byte-tail c x xs h in
    rw apart (ap (onto_head x) (split_byte-part c xs ys rest))

pub split_byte-one : (c : ℕ) (xs : Bytes) → contains_byte c xs ≡ false → split_byte c xs ≡ xs ∷ []
unfolding split_byte
split_byte-one c [] h = refl
split_byte-one c (x ∷ xs) h =
    let (apart, rest) = contains_byte-tail c x xs h in
    rw apart (ap (onto_head x) (split_byte-one c xs rest))

pub cut_last-none : (c : ℕ) (xs : Bytes) → contains_byte c xs ≡ false → cut_last c xs ≡ none
unfolding cut_last
cut_last-none c [] h = refl
cut_last-none c (x ∷ xs) h =
    let (apart, rest) = contains_byte-tail c x xs h in
    rw (cut_last-none c xs rest, cut_last) (rw apart refl)

-- The last cut is at the byte that none follows.
pub cut_last-at :
    (c : ℕ) (xs ys : Bytes)
    → contains_byte c ys ≡ false
    → cut_last c (xs ++ (c ∷ ys)) ≡ some (xs, ys)
unfolding cut_last
cut_last-at c [] ys h = rw (cut_last-none c ys h, cut_last) (rw (==_refl c) refl)
cut_last-at c (x ∷ xs) ys h = rw (cut_last-at c xs ys h, cut_last) refl
