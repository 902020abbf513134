-- ===== src/Base/Naturals.antt =====
-- The whole numbers as an instance of `Number`: what the interface asks for can be met. Examples
-- run on it; a literal is rounded down.
use Prim.Native.Nat.{ℕ, ◌+◌, ◌-◌, ◌*◌, ◌/◌}
use mathlib.Core.Path.{◌≡◌, refl}
use mathlib.Core.Logic.{◌⊎◌}
use mathlib.Core.Bool.{true}
use native.Mathlib.Omega.{arith}
use scoutpulse.Base.Tests.{leb, ◌==◌, ==_iff}
use scoutpulse.Base.Numbers.{Number, IsOrdered, DecidesEq}

instance abbrev pub whole : Number ℕ
whole = record {
  ratio = λ a b. a / b;
  add = λ a b. a + b;
  sub = λ a b. a - b;
  mul = λ a b. a * b;
  div = λ a b. a / b;
  le = leb;
  eq = ◌==◌;
  pi = 3;
  round = λ a. a;
  hypot = λ a b. a + b;
  sin = λ a. 0;
  cos = λ a. a;
  acos = λ a. a;
  atan2 = λ a b. a;
}

pub whole-DecidesEq : DecidesEq whole
whole-DecidesEq = record { eq_iff = ==_iff }

le_refl_ℕ : (x : ℕ) → leb x x ≡ true
le_refl_ℕ x = ground arith

le_trans_ℕ : (x y z : ℕ) → leb x y ≡ true → leb y z ≡ true → leb x z ≡ true
le_trans_ℕ x y z h k = ground arith

le_total_ℕ : (x y : ℕ) → (leb x y ≡ true) ⊎ (leb y x ≡ true)
le_total_ℕ x y = ground arith

le-add_ℕ : (x d : ℕ) → leb 0 d ≡ true → leb x (x + d) ≡ true
le-add_ℕ x d h = ground arith

pub whole-IsOrdered : IsOrdered whole
whole-IsOrdered = record {
  le_refl = le_refl_ℕ;
  le_trans = le_trans_ℕ;
  le_total = le_total_ℕ;
  le-add = le-add_ℕ;
  zero-le-tenth = refl;
}
