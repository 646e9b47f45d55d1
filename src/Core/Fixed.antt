-- ===== src/Core/Fixed.antt =====
-- Numbers in hundredths without a sign, rounded down: numbers in which the engines can be run, and
-- which satisfy what they rely on.
use sitescore.Common.{ℕ, ◌+◌, ◌-◌, ◌*◌, ◌/◌, ◌≤◌, ◌<◌, leb, ltb, true, ◌≡◌, refl, arith}
use native.Mathlib.Nat.{mul-le-mul, le-div_iff_mul-le, div-le_of_le-mul, div-mul-le_self}
use sitescore.Core.Numbers.{Num, Laws}

abbrev pub fixed : Num
fixed = record {
  F = ℕ;
  hundredths = λ n. n;
  tolerance = 0;
  add = λ a b. a + b;
  sub = λ a b. a - b;
  mul = λ a b. a * b / 100;
  div = λ a b. a * 100 / b;
  square = λ a. a * a / 100;
  abs = λ a. a;
  round6 = λ a. a;
  le = leb;
  less = ltb;
}

leb-true : (a b : ℕ) → a ≤ b → leb a b ≡ true
leb-true a b h = ground arith

true-leb : (a b : ℕ) → leb a b ≡ true → a ≤ b
true-leb a b h = ground arith

div_mono : (a b c : ℕ) → 0 < c → a ≤ b → a / c ≤ b / c
div_mono a b c p h =
    let low = div-mul-le_self a c in (le-div_iff_mul-le p).1 (le_steps (a / c * c) a b low h)
  where
    le_steps : (x y z : ℕ) → x ≤ y → y ≤ z → x ≤ z
    le_steps x y z h g = omega arith

mul_mono : (a b c d : ℕ) → leb a b ≡ true → leb c d ≡ true → leb (a * c / 100) (b * d / 100) ≡ true
mul_mono a b c d h g =
    leb-true _ _
      (div_mono (a * c) (b * d) 100 (omega arith) (mul-le-mul (true-leb a b h) (true-leb c d g)))

div_le_one : (a c : ℕ) → 0 < c → a ≤ c → a * 100 / c ≤ 100
div_le_one a c p h = div-le_of_le-mul c (mul_hundred a c h)
  where
    mul_hundred : (a c : ℕ) → a ≤ c → a * 100 ≤ c * 100
    mul_hundred a c h = omega arith

pub fixed_laws : Laws fixed
fixed_laws = record {
  le_refl = λ a. leb-true a a (omega arith);
  le_trans = λ a b c h g. ground arith;
  less_le = λ a b. ground arith;
  le_total = λ a b. ground arith;
  hundredths_le = λ m n h. leb-true m n h;
  mul_le = λ a b c h g. mul_mono a a b c (leb-true a a (omega arith)) g;
  mul_le_left = λ a b c h g. mul_mono b c a a g (leb-true a a (omega arith));
  mul_pos = λ a b h g. leb-true 0 (a * b / 100) (omega arith);
  add_pos = λ a b h g. leb-true 0 (a + b) (omega arith);
  add_le = λ a b c d h g. ground arith;
  mul_one = λ a. omega arith;
  sub_le = λ a b c h. ground arith;
  sub_pos = λ a b h. leb-true 0 (b - a) (omega arith);
  sub_zero = λ a. omega arith;
  div_le = λ a b c p h. leb-true _ _ (div_mono (a * 100) (b * 100) c (ground arith) (ground arith));
  div_pos = λ a c p h. leb-true 0 (a * 100 / c) (omega arith);
  div_one = λ a c p h. leb-true _ 100 (div_le_one a c (ground arith) (true-leb a c h));
  square_le = λ a b p h. mul_mono a b a b h h;
  square_pos = λ a. leb-true 0 (a * a / 100) (omega arith);
  square_one = λ a p h. leb-true _ _ (
      div_mono (a * a) (100 * 100) 100 (omega arith)
        (mul-le-mul (true-leb a 100 h) (true-leb a 100 h)));
  round6_le = λ a b h. h;
  round6_hundredths = λ n. refl;
}
