-- ===== src/Floats.antt =====
-- Python's `float` as the engines use it. Its representation is left open: a model takes the
-- operations as an argument, and a theorem takes the laws of IEEE 754 doubles that it relies on.
-- Each law holds of every double, with NaN, for which every comparison is false.
pub mod Naturals
pub mod Integers
use clartt_capital.Common.{ℕ, ◌≤◌, ◌≡◌, Bool, true, false, String, Option, some}

pub record Floats : Type 1 where
  pub F : Type 0
  pub lit : ℕ → F
  pub add : F → F → F
  pub sub : F → F → F
  pub mul : F → F → F
  pub div : F → F → F
  pub abs : F → F
  -- To that many decimal places.
  pub round : ℕ → F → F
  pub lt : F → F → Bool
  pub le : F → F → Bool
  pub show : F → String
  pub parse : String → Option F

pub record IsLawful (N : Floats) : Type 0 where
  pub le_trans : (a b c : N.F) → N.le a b ≡ true → N.le b c ≡ true → N.le a c ≡ true
  pub lt_of_lt_of_le : (a b c : N.F) → N.lt a b ≡ true → N.le b c ≡ true → N.lt a c ≡ true
  pub lt_of_le_of_lt : (a b c : N.F) → N.le a b ≡ true → N.lt b c ≡ true → N.lt a c ≡ true
  pub le_of_lt : (a b : N.F) → N.lt a b ≡ true → N.le a b ≡ true
  pub not_le_of_lt : (a b : N.F) → N.lt a b ≡ true → N.le b a ≡ false
  pub div_le_div :
      (a b : N.F) → N.le a b ≡ true → N.le (N.div a (N.lit 100)) (N.div b (N.lit 100)) ≡ true
  pub lt_irrefl : (a : N.F) → N.lt a a ≡ false
  pub le_refl_of_lt : (a b : N.F) → N.lt a b ≡ true → N.le b b ≡ true
  pub lit_mono : (m n : ℕ) → m ≤ n → N.le (N.lit m) (N.lit n) ≡ true
  pub parse-show : (a : N.F) → N.le a a ≡ true → N.parse (N.show a) ≡ some a
