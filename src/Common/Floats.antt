-- ===== src/Common/Floats.antt =====
-- Floating-point numbers: the operations that the modelled code uses, as a parameter, and the law of
-- their order that sorting relies on. A NaN has no place in it.
use Prim.Native.Nat.{ℕ}
use mathlib.Core.Path.{◌≡◌}
use mathlib.Core.Bool.{Bool, true, false}

pub record Floats : Type 1 where
  pub F : Type 0
  -- n / d
  pub ratio : ℕ → ℕ → F
  pub add : F → F → F
  pub sub : F → F → F
  pub mul : F → F → F
  pub div : F → F → F
  pub largest : F → F → F
  pub smallest : F → F → F
  pub log : F → F
  pub lt : F → F → Bool

pub record IsOrdered (fl : Floats) : Type 0 where
  pub asymm : (a b : fl.F) → fl.lt a b ≡ true → fl.lt b a ≡ false
  pub not_lt_trans : (a b c : fl.F) → fl.lt a b ≡ false → fl.lt b c ≡ false → fl.lt a c ≡ false
