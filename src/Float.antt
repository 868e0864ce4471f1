-- ===== src/Float.antt =====
-- Go's float64, of which the model uses the operations and no representation: a theorem that needs
-- more than the operations names the law.
use go_pool.Base.{ℕ, Bool}

-- Go's int, under the library's names, over the native ℕ.
pub data ℤ : Type 0 where
  pos negsuc : ℕ → ℤ

pub record Float : Type 1 where
  pub F : Type 0
  -- `float64(n)` and `uint64(f)`
  pub of_nat : ℕ → F
  pub to_nat : F → ℕ
  pub add : F → F → F
  pub sub : F → F → F
  pub mul : F → F → F
  pub div : F → F → F
  pub lt : F → F → Bool
  pub le : F → F → Bool
  pub eq : F → F → Bool
  -- `int(f)`
  pub to_int : F → ℤ
  -- `math.Round`, and `math.IsNaN` or `math.IsInf`
  pub round : F → F
  pub not_finite : F → Bool
  -- `math.Float64bits` and its inverse: what a column of reals holds.
  pub bits : F → ℕ
  pub of_bits : ℕ → F
