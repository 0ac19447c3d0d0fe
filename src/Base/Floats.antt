-- ===== src/Base/Floats.antt =====
-- `f64` as an interface: the operations that the program uses, over a type of values.
-- The language's numbers have no model of binary floating point, so a component takes the type and
-- its operations as parameters, and a theorem that needs more names the laws that it uses.
use Prim.Native.Nat.{ℕ, ◌+◌, ◌-◌, ◌*◌, ◌/◌, ◌^◌, ◌≤◌, compare, Ordering, min}
use mathlib.Core.Path.{◌≡◌, refl}
use mathlib.Core.Bool.{Bool, true, false}
use mathlib.Core.Option.{Option, none, some}
use native.Mathlib.Omega.{arith}
use boom_gw.Base.Tests.{ltb, if◌then◌else◌}

-- `partial_cmp` is `none` when an operand is NaN. `decimal n k` is the value of the literal
-- n / 10^k.
pub record Float (F : Type 0) : Type 0 where
  pub add : F → F → F
  pub sub : F → F → F
  pub mul : F → F → F
  pub div : F → F → F
  pub abs : F → F
  pub ln : F → F
  pub is_finite : F → Bool
  pub partial_cmp : F → F → Option Ordering
  pub decimal : ℕ → ℕ → F

module _ {F : Type 0} ⦃fl : Float F⦄ where
  infixl 65 ◌+F◌ ◌-F◌
  infixl 70 ◌*F◌ ◌/F◌
  abbrev pub ◌+F◌ : F → F → F
  ◌+F◌ = fl.add

  abbrev pub ◌-F◌ : F → F → F
  ◌-F◌ = fl.sub

  abbrev pub ◌*F◌ : F → F → F
  ◌*F◌ = fl.mul

  abbrev pub ◌/F◌ : F → F → F
  ◌/F◌ = fl.div

  -- The comparisons `<`, `<=` are false when an operand is NaN.
  abbrev pub lt_f : F → F → Bool
  lt_f a b = elim (fl.partial_cmp a b) [
    | none ↦ false
    | some o ↦ elim o [ Ordering.lt ↦ true | _ ↦ false ]
  ]

  abbrev pub le_f : F → F → Bool
  le_f a b = elim (fl.partial_cmp a b) [
    | none ↦ false
    | some o ↦ elim o [ Ordering.gt ↦ false | _ ↦ true ]
  ]

  -- `a.partial_cmp(&b).unwrap_or(Ordering::Equal)`
  abbrev pub cmp_f : F → F → Ordering
  cmp_f a b = elim (fl.partial_cmp a b) [ none ↦ Ordering.eq | some o ↦ o ]

-- What IEEE 754 says of values that are no NaN. They are finitely many and totally ordered (the
-- two zeros are equal in this order), so they can be numbered in order; rounding is monotone, so
-- a difference grows with the distance; a difference negates exactly, and
-- that of equal values is zero.
pub record FloatLaws {F : Type 0} (fl : Float F) : Type 0 where
  pub rank : F → ℕ
  pub cmp_rank : (a b : F) → fl.partial_cmp a b ≡ some (compare (rank a) (rank b))
  pub dist_below :
      (g a b : F)
      → rank a ≤ rank b
      → rank b ≤ rank g
      → rank (fl.abs (fl.sub g b)) ≤ rank (fl.abs (fl.sub g a))
  pub dist_above :
      (g a b : F)
      → rank g ≤ rank a
      → rank a ≤ rank b
      → rank (fl.abs (fl.sub g a)) ≤ rank (fl.abs (fl.sub g b))
  pub dist_sym : (a b : F) → fl.abs (fl.sub a b) ≡ fl.abs (fl.sub b a)
  pub dist_zero : (a b : F) → rank a ≡ rank b → rank (fl.abs (fl.sub a b)) ≡ rank (fl.decimal 0 0)

-- A number format that meets the laws: thousandths in offset binary, saturating at both ends.
abbrev pub fixed_abs : ℕ → ℕ
fixed_abs a = if ltb a (2 ^ 40) then 2 ^ 40 + (2 ^ 40 - a) else a

abbrev pub fixed_sub : ℕ → ℕ → ℕ
fixed_sub a b = min (a + 2 ^ 40 - b) (2 ^ 40 + 2 ^ 40)

instance abbrev pub fixed : Float ℕ
fixed = record {
  add = λ a b. a + b - 2 ^ 40;
  sub = fixed_sub;
  mul = λ a b. 2 ^ 40 + (a - 2 ^ 40) * (b - 2 ^ 40) / 1000;
  div = λ a b. 2 ^ 40 + (a - 2 ^ 40) * 1000 / (b - 2 ^ 40);
  abs = fixed_abs;
  ln = λ a. a - 1000;
  is_finite = λ a. true;
  partial_cmp = λ a b. some (compare a b);
  decimal = λ n k. 2 ^ 40 + n * 1000 / 10 ^ k;
}

pub fixed_dist_below :
    (g a b : ℕ) → a ≤ b → b ≤ g → fixed_abs (fixed_sub g b) ≤ fixed_abs (fixed_sub g a)
fixed_dist_below g a b h k = ground arith

pub fixed_dist_above :
    (g a b : ℕ) → g ≤ a → a ≤ b → fixed_abs (fixed_sub g a) ≤ fixed_abs (fixed_sub g b)
fixed_dist_above g a b h k = ground arith

pub fixed_dist_sym : (a b : ℕ) → fixed_abs (fixed_sub a b) ≡ fixed_abs (fixed_sub b a)
fixed_dist_sym a b = ground arith

pub fixed_dist_zero : (a b : ℕ) → a ≡ b → fixed_abs (fixed_sub a b) ≡ 2 ^ 40 + 0 * 1000 / 10 ^ 0
fixed_dist_zero a b h = ground arith

abbrev pub fixed_laws : FloatLaws fixed
fixed_laws = record {
  rank = λ a. a;
  cmp_rank = λ a b. refl;
  dist_below = fixed_dist_below;
  dist_above = fixed_dist_above;
  dist_sym = fixed_dist_sym;
  dist_zero = fixed_dist_zero;
}
