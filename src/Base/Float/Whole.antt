-- ===== src/Base/Float/Whole.antt =====
-- Whole numbers as an instance of the interface, for samples.
use free_model_orchestrator.Base.Tests.{leb}
use free_model_orchestrator.Base.Float.{Float, IsOrdered}
use Prim.Native.Nat.{ℕ, ◌+◌, ◌-◌, ◌*◌, ◌/◌}
use mathlib.Core.Path.{◌≡◌}
use mathlib.Core.Logic.{◌⊎◌}
use mathlib.Core.Bool.{true}
use mathlib.Core.Option.{none}
use native.Mathlib.Omega.{arith}

abbrev pub whole : Float
whole = record {
  Number = ℕ;
  of_nat = λ n. n;
  of_text = λ _. none;
  round = λ n. n;
  add = λ a b. a + b;
  sub = λ a b. a - b;
  mul = λ a b. a * b;
  div = λ a b. a / b;
  le = leb;
}

leb_total : (a b : ℕ) → (leb a b ≡ true) ⊎ (leb b a ≡ true)
leb_total a b = ground arith

leb_trans : (a b c : ℕ) → leb a b ≡ true → leb b c ≡ true → leb a c ≡ true
leb_trans a b c h k = ground arith

pub whole-IsOrdered : IsOrdered whole
whole-IsOrdered = record { le_total = leb_total; le_trans = leb_trans }
