-- ===== src/Base/Float.antt =====
-- Python's `float`, as an interface: the operations that the program calls, and the laws of
-- the order on numbers that are not NaN.
pub mod Whole
use mathlib.Core.Path.{◌≡◌}
use mathlib.Core.Logic.{◌⊎◌}
use mathlib.Core.Bool.{Bool, true, false, not}
use free_model_orchestrator.Base.Tests.{if◌then◌else◌}

pub record Float : Type 1 where
  pub Number : Type 0
  pub of_nat : Prim.Native.Nat.ℕ → Number
  -- `float(text)`; `none` where it raises ValueError.
  pub of_text : Prim.Native.String.String → mathlib.Core.Option.Option Number
  -- `round(x)` of a number that is not negative.
  pub round : Number → Prim.Native.Nat.ℕ
  pub add : Number → Number → Number
  pub sub : Number → Number → Number
  pub mul : Number → Number → Number
  pub div : Number → Number → Number
  pub le : Number → Number → Bool

pub record IsOrdered (F : Float) : Type 0 where
  pub le_total : (a b : F.Number) → (F.le a b ≡ true) ⊎ (F.le b a ≡ true)
  pub le_trans : (a b c : F.Number) → F.le a b ≡ true → F.le b c ≡ true → F.le a c ≡ true

module _ (F : Float) where
  open F use {Number, le}

  -- `a < b`; NaN is neither below nor above a number.
  abbrev pub lt : Number → Number → Bool
  lt a b = if le a b then not (le b a) else false

  -- `a == b`
  abbrev pub eq : Number → Number → Bool
  eq a b = if le a b then le b a else false

  -- `max(a, b)`: the first argument unless the second is larger.
  abbrev pub fmax : Number → Number → Number
  fmax a b = if lt a b then b else a

  -- `min(a, b)`: the first argument unless the second is smaller.
  abbrev pub fmin : Number → Number → Number
  fmin a b = if lt b a then b else a
