-- ===== src/Base/Calls.antt =====
-- The outcome of a Go call: it returns a value, or it panics.

pub data Outcome {ℓ} (A : Type ℓ) : Type ℓ where
  ok : A → Outcome A
  panic : Outcome A

abbrev pub bind {ℓ κ} : {A : Type ℓ} {B : Type κ} → Outcome A → (A → Outcome B) → Outcome B
bind (ok a) f = f a
bind panic f = panic

-- If the call returns, it is with a value that satisfies the predicate.
abbrev pub Holds {ℓ κ} : {A : Type ℓ} → (A → Type κ) → Outcome A → Type κ
Holds P (ok a) = P a
Holds P panic = Unit {κ}

pub Holds-bind {ℓ κ μ} :
    {A : Type ℓ} {B : Type κ} (P : B → Type μ) (o : Outcome A) (f : A → Outcome B)
    → ((a : A) → Holds P (f a))
    → Holds P (bind o f)
Holds-bind P (ok a) f h = h a
Holds-bind P panic f h = tt

pub Holds-then {ℓ κ μ ν} :
    {A : Type ℓ} {B : Type κ} (P : A → Type μ) (Q : B → Type ν) (o : Outcome A) (f : A → Outcome B)
    → ((a : A) → P a → Holds Q (f a))
    → Holds P o
    → Holds Q (bind o f)
Holds-then P Q (ok a) f h p = h a p
Holds-then P Q panic f h p = tt

pub Holds-imp {ℓ κ μ} :
    {A : Type ℓ} (P : A → Type κ) (Q : A → Type μ) (o : Outcome A)
    → ((a : A) → P a → Q a)
    → Holds P o
    → Holds Q o
Holds-imp P Q (ok a) h p = h a p
Holds-imp P Q panic h p = tt

-- The call returns, and with a value that satisfies the predicate.
abbrev pub Returns {ℓ} : {A : Type ℓ} → (A → Type 0) → Outcome A → Type 0
Returns P (ok a) = P a
Returns P panic = ⊥
