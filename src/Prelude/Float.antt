-- ===== src/Prelude/Float.antt =====
-- What the program uses of Go's float64: arithmetic, comparisons and constants. The type is a
-- parameter; its laws are those of IEEE 754 that the program relies on.
use Prim.Native.Nat.{ℕ, ◌+◌, ◌-◌, ◌*◌, ◌/◌, ◌^◌, ◌<◌, ◌≤◌}
use mathlib.Core.Path.{◌≡◌}
use mathlib.Core.Bool.{Bool, true, false}
use mathlib.Core.Option.{Option, none, some}
use native.Mathlib.Omega.{arith}
use nevr_anticheat.Prelude.Tests.{ltb, leb, ◌==◌, if◌then◌else◌}
use nevr_anticheat.Prelude.Int.{ℤ, pos}

pub record Float {ℓ} (W : Type ℓ) : Type ℓ where
  -- The float64 nearest to n / d, as the compiler rounds a constant.
  pub ratio : ℕ → ℕ → W
  pub add : W → W → W
  pub sub : W → W → W
  pub mul : W → W → W
  pub div : W → W → W
  -- math.Pow
  pub pow : W → W → W
  -- math.Abs
  pub abs : W → W
  -- math.Sqrt
  pub sqrt : W → W
  pub lt : W → W → Bool
  pub le : W → W → Bool
  -- `==`, which is not the identity: 0 equals -0, and NaN equals nothing.
  pub eq : W → W → Bool
  pub is_nan : W → Bool
  -- math.IsInf(x, 0)
  pub is_inf : W → Bool
  -- math.Max, math.Min and math.Nextafter(x, math.Inf(1))
  pub larger : W → W → W
  pub smaller : W → W → W
  pub next_up : W → W
  -- int64(x): the part before the point.
  pub trunc : W → ℤ

module _ {ℓ} {W : Type ℓ} ⦃f : Float W⦄ where
  -- float64(n) of a small integer.
  abbrev pub lit : ℕ → W
  lit n = f.ratio n 1

  infix 50 ◌⩽◌ ◌⋖◌
  abbrev pub ◌⩽◌ : W → W → Type 0
  x ⩽ y = f.le x y ≡ true

  abbrev pub ◌⋖◌ : W → W → Type 0
  x ⋖ y = f.lt x y ≡ true

  -- A value that is not NaN.
  abbrev pub IsNumber : W → Type 0
  IsNumber x = f.le x x ≡ true

-- Up to here every natural number is a float64 of its own, 2 to the power of 53.
abbrev pub max_exact : ℕ
max_exact = 9_007_199_254_740_992

-- The comparisons order the values that are not NaN, and are all false of NaN. A natural number above
-- the largest float64 rounds to +Inf, which is a number here, so only the laws that would fail there, or
-- where two naturals round to one value, are bounded.
pub record IsOrdered {ℓ} (W : Type ℓ) ⦃f : Float W⦄ : Type ℓ where
  pub lit_number : (n : ℕ) → IsNumber {W = W} (lit n)
  pub lit_finite : (n : ℕ) → n ≤ max_exact → f.is_inf (lit n) ≡ false
  -- A product is NaN only of 0 and Inf, and of NaN.
  pub lit-mul_number : (m n : ℕ) → 0 < n → n ≤ max_exact → IsNumber {W = W} (f.mul (lit m) (lit n))
  pub zero-add-zero : ◌≡◌ {A = W} (f.add (lit 0) (lit 0)) (lit 0)
  pub lit_lt : (m n : ℕ) → m < n → n ≤ max_exact → ◌⋖◌ {W = W} (lit m) (lit n)
  pub number_of_le : (x y : W) → x ⩽ y → IsNumber x × IsNumber y
  pub le_trans : (x y z : W) → x ⩽ y → y ⩽ z → x ⩽ z
  pub le_of_lt : (x y : W) → x ⋖ y → x ⩽ y
  pub not_le_of_lt : (x y : W) → x ⋖ y → f.le y x ≡ false
  pub lt_of_not_le : (x y : W) → IsNumber x → IsNumber y → f.le y x ≡ false → x ⋖ y
  pub nan_lt : (x y : W) → f.le x x ≡ false → (f.lt x y ≡ false) × (f.lt y x ≡ false)
  pub nan_le : (x y : W) → f.le x x ≡ false → (f.le x y ≡ false) × (f.le y x ≡ false)
  pub is_nan_lem : (x : W) → f.is_nan x ≡ true → f.le x x ≡ false
  pub number_lem : (x : W) → f.is_nan x ≡ false → IsNumber x
  pub eq_lem : (x y : W) → f.eq x y ≡ true → (x ⩽ y) × (y ⩽ x)
  pub eq_of_le : (x y : W) → x ⩽ y → y ⩽ x → f.eq x y ≡ true
  -- A constant and a product of values between 0 and 1; the rounding is monotone.
  pub ratio_unit :
      (m n : ℕ)
      → m ≤ n
      → 0 < n
      → ◌⩽◌ {W = W} (lit 0) (f.ratio m n) × ◌⩽◌ {W = W} (f.ratio m n) (lit 1)
  pub mul_unit :
      (x m : W)
      → lit 0 ⩽ x
      → x ⩽ lit 1
      → lit 0 ⩽ m
      → m ⩽ lit 1
      → (lit 0 ⩽ f.mul x m) × (f.mul x m ⩽ x)

-- The laws can be met: thousandths, with `none` for NaN and nothing below 0.
abbrev pub Milli : Type 0
Milli = Option ℕ

abbrev pub lift₂ : (ℕ → ℕ → ℕ) → Milli → Milli → Milli
lift₂ g (some a) (some b) = some (g a b)
lift₂ g (some a) none = none
lift₂ g none b = none

abbrev pub on_numbers : (ℕ → ℕ → Bool) → Milli → Milli → Bool
on_numbers g (some a) (some b) = g a b
on_numbers g (some a) none = false
on_numbers g none b = false

abbrev pub is_none : Milli → Bool
is_none none = true
is_none (some n) = false

abbrev pub thousandths : Milli → ℤ
thousandths none = pos 0
thousandths (some n) = pos (n / 1000)

instance abbrev pub milli_float : Float Milli
milli_float = record {
  ratio = λ n d. some (n * 1000 / d);
  add = lift₂ (λ a b. a + b);
  sub = lift₂ (λ a b. a - b);
  mul = lift₂ (λ a b. a * b / 1000);
  div = lift₂ (λ a b. a * 1000 / b);
  pow = lift₂ (λ a n. a ^ (n / 1000) / 1000 ^ (n / 1000 - 1));
  abs = λ x. x;
  sqrt = λ x. x;
  lt = on_numbers ltb;
  le = on_numbers leb;
  eq = on_numbers ◌==◌;
  is_nan = is_none;
  is_inf = λ x. false;
  larger = lift₂ (λ a b. if ltb a b then b else a);
  smaller = lift₂ (λ a b. if ltb a b then a else b);
  next_up = λ x. lift₂ (λ a b. a + b) x (some 1);
  trunc = thousandths;
}

Milli-ratio_unit : (m n : ℕ) → m ≤ n → 0 < n → m * 1000 / n ≤ 1000
Milli-ratio_unit m n h p = grind arith

Milli-mul_unit : (a b : ℕ) → b ≤ 1000 → a * b / 1000 ≤ a
Milli-mul_unit a b h = let product : a * b ≤ a * 1000 = grind arith in omega (arith, product)

Milli-unit :
    (x m : Milli)
    → lit 0 ⩽ x
    → x ⩽ lit 1
    → lit 0 ⩽ m
    → m ⩽ lit 1
    → (lit 0 ⩽ lift₂ (λ a b. a * b / 1000) x m) × (lift₂ (λ a b. a * b / 1000) x m ⩽ x)
Milli-unit (some a) (some b) h i j k =
    (ground arith, ground (arith, Milli-mul_unit a b (ground arith)))
Milli-unit (some a) none h i j k = cc
Milli-unit none m h i j k = cc

pub Milli-IsOrdered : IsOrdered Milli
Milli-IsOrdered = record {
  lit_number = λ a. ground arith;
  lit_finite = λ a h. ground arith;
  lit-mul_number = λ a b p h. ground arith;
  zero-add-zero = ground arith;
  lit_lt = λ a b c h. ground arith;
  number_of_le = λ a b c. ground arith;
  le_trans = λ a b c d e. ground arith;
  le_of_lt = λ a b c. ground arith;
  not_le_of_lt = λ a b c. ground arith;
  lt_of_not_le = λ a b c d e. ground arith;
  nan_lt = λ a b c. ground arith;
  nan_le = λ a b c. ground arith;
  is_nan_lem = λ a b. ground arith;
  number_lem = λ a b. ground arith;
  eq_lem = λ a b c. ground arith;
  eq_of_le = λ a b c d. ground arith;
  ratio_unit = λ m n h p. (ground arith, ground (arith, Milli-ratio_unit m n h p));
  mul_unit = Milli-unit;
}
