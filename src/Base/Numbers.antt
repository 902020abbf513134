-- ===== src/Base/Numbers.antt =====
-- JavaScript's numbers where they carry a fraction: the operations that the board uses of them,
-- as an interface. A value is finite, and the two zeros are one.
use Prim.Native.Nat.{ℕ}
use mathlib.Core.Path.{◌≡◌}
use mathlib.Core.Logic.{◌↔◌, ◌⊎◌}
use mathlib.Core.Bool.{Bool, true, not}
use scoutpulse.Base.Tests.{if◌then◌else◌}

pub record Number (F : Type 0) : Type 0 where
  -- the literal a / b
  pub ratio : ℕ → ℕ → F
  pub add : F → F → F
  pub sub : F → F → F
  pub mul : F → F → F
  pub div : F → F → F
  -- x <= y and x === y
  pub le : F → F → Bool
  pub eq : F → F → Bool
  -- Math.PI, Math.round, Math.hypot, Math.sin, Math.cos, Math.acos, Math.atan2
  pub pi : F
  pub round : F → F
  pub hypot : F → F → F
  pub sin : F → F
  pub cos : F → F
  pub acos : F → F
  pub atan2 : F → F → F

module _ {F : Type 0} ⦃n : Number F⦄ where
  abbrev pub int : ℕ → F
  int k = n.ratio k 1

  abbrev pub neg : F → F
  neg x = n.sub (int 0) x

  -- Math.min, Math.max, x < y and Math.abs
  abbrev pub min_of : F → F → F
  min_of a b = if n.le a b then a else b

  abbrev pub max_of : F → F → F
  max_of a b = if n.le a b then b else a

  abbrev pub lt : F → F → Bool
  lt a b = not (n.le b a)

  abbrev pub abs : F → F
  abs x = if n.le (int 0) x then x else neg x

  -- `x || 1`
  abbrev pub or_one : F → F
  or_one x = if n.eq x (int 0) then int 1 else x

-- What is relied on of `<=` and `+`: a total order, and rounding that keeps it.
pub record IsOrdered {F : Type 0} (n : Number F) : Type 0 where
  pub le_refl : (x : F) → n.le x x ≡ true
  pub le_trans : (x y z : F) → n.le x y ≡ true → n.le y z ≡ true → n.le x z ≡ true
  pub le_total : (x y : F) → (n.le x y ≡ true) ⊎ (n.le y x ≡ true)
  pub le-add : (x d : F) → n.le (n.ratio 0 1) d ≡ true → n.le x (n.add x d) ≡ true
  pub zero-le-tenth : n.le (n.ratio 0 1) (n.ratio 1 10) ≡ true

pub record DecidesEq {F : Type 0} (n : Number F) : Type 0 where
  pub eq_iff : (x y : F) → (n.eq x y ≡ true) ↔ (x ≡ y)
