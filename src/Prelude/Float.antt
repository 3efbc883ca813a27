-- ===== src/Prelude/Float.antt =====
-- All that the code does with a `float64`. The values and the operations are the language's, on
-- IEEE doubles, and a parameter here.
use fleet_core.Prelude.{ℕ, Bool}

pub record Float (F : Type 0) : Type 0 where
  pub of_nat : ℕ → F
  pub add : F → F → F
  pub mul : F → F → F
  pub div : F → F → F
  pub lt : F → F → Bool
  pub eq : F → F → Bool
