-- ===== src/Base/Assoc.antt =====
-- A Go map as an association list: each key stands at most once, and the order, which Go leaves
-- open, is that of the first writes.
use mathlib.Core.Path.{◌≡◌, refl, subst}
use mathlib.Core.Logic.{◌↔◌, ◌≢◌, inl, inr}
use mathlib.Core.Bool.{Bool, true}
use mathlib.Core.Option.{Option, none, some}
use mathlib.Core.List.{List, [], ◌∷◌, ◌++◌}
use Prim.Native.Nat.{ℕ}
use native.Mathlib.Omega.{arith}
use go_pool.Base.Tests.{if◌then◌else◌, Bool-cases, ◌==◌ as nat_eq, ==_iff}
use go_pool.Base.Bytes.{Bytes, bytes_eq, bytes_eq_iff}

pub record Eq {ℓ} (A : Type ℓ) : Type ℓ where
  pub beq : A → A → Bool
  pub beq_iff : (a b : A) → (beq a b ≡ true) ↔ (a ≡ b)

instance abbrev pub nat_keys : Eq ℕ
nat_keys = record { beq = nat_eq; beq_iff = ==_iff }

instance abbrev pub bytes_keys : Eq Bytes
bytes_keys = record { beq = bytes_eq; beq_iff = bytes_eq_iff }

abbrev pub Assoc {ℓ κ} : Type ℓ → Type κ → Type (ℓ ⊔ κ)
Assoc K V = List (K × V)

module _ {ℓ κ} {K : Type ℓ} {V : Type κ} ⦃e : Eq K⦄ where
  abbrev pub lookup : K → Assoc K V → Option V
  lookup k [] = none
  lookup k ((j, v) ∷ m) = if e.beq j k then some v else lookup k m

  -- `m[k] = v`
  abbrev pub insert : K → V → Assoc K V → Assoc K V
  insert k v [] = (k, v) ∷ []
  insert k v ((j, w) ∷ m) = if e.beq j k then (j, v) ∷ m else (j, w) ∷ insert k v m

  -- `delete(m, k)`
  abbrev pub erase : K → Assoc K V → Assoc K V
  erase k [] = []
  erase k ((j, v) ∷ m) = if e.beq j k then erase k m else (j, v) ∷ erase k m

  -- No key stands twice.
  abbrev pub IsMap : Assoc K V → Type κ
  IsMap [] = Unit {κ}
  IsMap ((k, v) ∷ m) = (lookup k m ≡ none) × IsMap m

module _ {ℓ} {K : Type ℓ} ⦃e : Eq K⦄ where
  pub beq_refl : (k : K) → e.beq k k ≡ true
  beq_refl k = (e.beq_iff k k).1 refl

module _ {ℓ κ} {K : Type ℓ} {V : Type κ} ⦃e : Eq K⦄ where
  pub lookup-insert :
      (j k : K) (v : V) (m : Assoc K V)
      → lookup j (insert k v m) ≡ (if e.beq k j then some v else lookup j m)
  lookup-insert j k v [] = refl
  lookup-insert j k v ((i, w) ∷ m) =
      ground (arith, e.beq_iff i k, e.beq_iff i j, e.beq_iff k j, lookup-insert j k v m)

  pub lookup-erase :
      (j k : K) (m : Assoc K V) → lookup j (erase k m) ≡ (if e.beq k j then none else lookup j m)
  lookup-erase j k [] = ground arith
  lookup-erase j k ((i, w) ∷ m) =
      ground (arith, e.beq_iff i k, e.beq_iff i j, e.beq_iff k j, lookup-erase j k m)

  pub insert-fresh :
      (k : K) (v : V) (m : Assoc K V) → lookup k m ≡ none → insert k v m ≡ m ++ ((k, v) ∷ [])
  insert-fresh k v [] h = refl
  insert-fresh k v ((i, w) ∷ m) h = ground (arith, insert-fresh k v m)

  pub IsMap-insert : (k : K) (v : V) (m : Assoc K V) → IsMap m → IsMap (insert k v m)
  IsMap-insert k v [] h = (refl, tt)
  IsMap-insert k v ((i, w) ∷ m) h = elim (Bool-cases (e.beq i k)) [
    | inl same ↦ rw same h
    | inr other ↦ rw other (
      ground (arith, e.beq_iff i k, e.beq_iff k i, lookup-insert i k v m, h.0),
      IsMap-insert k v m h.1,
    )
  ]

  lookup_middle :
      (m : Assoc K V) (k : K) (v : V) (n : Assoc K V) → lookup k (m ++ ((k, v) ∷ n)) ≢ none
  lookup_middle [] k v n h = ground (arith, beq_refl k)
  lookup_middle ((i, w) ∷ m) k v n h = ground (arith, lookup_middle m k v n)

  pub IsMap-middle :
      (m : Assoc K V) (k : K) (v : V) (n : Assoc K V)
      → IsMap (m ++ ((k, v) ∷ n))
      → lookup k m ≡ none
  IsMap-middle [] k v n h = refl
  IsMap-middle ((i, w) ∷ m) k v n h = elim (Bool-cases (e.beq i k)) [
    | inl same ↦ absurd (
        lookup_middle m k v n
          (subst (λ x. lookup x (m ++ ((k, v) ∷ n)) ≡ none) ((e.beq_iff i k).0 same) h.0))
    | inr other ↦ rw other (IsMap-middle m k v n h.1)
  ]
