-- ===== src/Core/Numbers.antt =====
-- The floating-point numbers that the engines compute with, as an interface: the operations, and
-- what the engines rely on, which IEEE 754 arithmetic satisfies on finite operands without overflow.
use sitescore.Common.{ℕ, ◌≤◌, Bool, true, not, ◌&&◌, ◌≡◌, ◌⊎◌}

pub record Num : Type 1 where
  pub F : Type 0
  -- The literal n / 100.
  pub hundredths : ℕ → F
  -- The literal 1e-9.
  pub tolerance : F
  pub add : F → F → F
  pub sub : F → F → F
  pub mul : F → F → F
  pub div : F → F → F
  -- `x ** 2`
  pub square : F → F
  pub abs : F → F
  -- `round(x, 6)`
  pub round6 : F → F
  -- `x <= y` and `x < y`
  pub le : F → F → Bool
  pub less : F → F → Bool

module _ (N : Num) where
  abbrev pub zero : N.F
  zero = N.hundredths 0

  abbrev pub one : N.F
  one = N.hundredths 100

  abbrev pub hundred : N.F
  hundred = N.hundredths 10000

  -- `x < y`
  abbrev pub lt : N.F → N.F → Bool
  lt a b = N.less a b

  -- `x == y`
  abbrev pub eq : N.F → N.F → Bool
  eq a b = N.le a b && N.le b a

  -- `low <= x <= high`
  abbrev pub is_between : N.F → N.F → N.F → Bool
  is_between low high x = N.le low x && N.le x high

  pub record Laws : Type 0 where
    pub le_refl : (a : N.F) → N.le a a ≡ true
    pub le_trans : (a b c : N.F) → N.le a b ≡ true → N.le b c ≡ true → N.le a c ≡ true
    pub less_le : (a b : N.F) → N.less a b ≡ not (N.le b a)
    pub le_total : (a b : N.F) → (N.le a b ≡ true) ⊎ (N.le b a ≡ true)
    pub hundredths_le : (m n : ℕ) → m ≤ n → N.le (N.hundredths m) (N.hundredths n) ≡ true
    pub mul_le :
        (a b c : N.F) → N.le zero a ≡ true → N.le b c ≡ true → N.le (N.mul a b) (N.mul a c) ≡ true
    pub mul_le_left :
        (a b c : N.F) → N.le zero a ≡ true → N.le b c ≡ true → N.le (N.mul b a) (N.mul c a) ≡ true
    pub mul_pos :
        (a b : N.F) → N.le zero a ≡ true → N.le zero b ≡ true → N.le zero (N.mul a b) ≡ true
    pub add_pos :
        (a b : N.F) → N.le zero a ≡ true → N.le zero b ≡ true → N.le zero (N.add a b) ≡ true
    pub add_le :
        (a b c d : N.F) → N.le a b ≡ true → N.le c d ≡ true → N.le (N.add a c) (N.add b d) ≡ true
    pub mul_one : (a : N.F) → N.mul a one ≡ a
    pub sub_le : (a b c : N.F) → N.le b c ≡ true → N.le (N.sub a c) (N.sub a b) ≡ true
    pub sub_pos : (a b : N.F) → N.le a b ≡ true → N.le zero (N.sub b a) ≡ true
    pub sub_zero : (a : N.F) → N.sub a zero ≡ a
    pub div_le :
        (a b c : N.F) → lt zero c ≡ true → N.le a b ≡ true → N.le (N.div a c) (N.div b c) ≡ true
    pub div_pos : (a c : N.F) → lt zero c ≡ true → N.le zero a ≡ true → N.le zero (N.div a c) ≡ true
    pub div_one : (a c : N.F) → lt zero c ≡ true → N.le a c ≡ true → N.le (N.div a c) one ≡ true
    pub square_le :
        (a b : N.F) → N.le zero a ≡ true → N.le a b ≡ true → N.le (N.square a) (N.square b) ≡ true
    pub square_pos : (a : N.F) → N.le zero (N.square a) ≡ true
    pub square_one :
        (a : N.F) → N.le zero a ≡ true → N.le a one ≡ true → N.le (N.square a) one ≡ true
    pub round6_le : (a b : N.F) → N.le a b ≡ true → N.le (N.round6 a) (N.round6 b) ≡ true
    pub round6_hundredths : (n : ℕ) → N.round6 (N.hundredths n) ≡ N.hundredths n
