-- ===== src/Floats/Integers.antt =====
-- Floats with negative values on which a statement can be evaluated: integers, divided towards zero.
-- `negsuc n` is -(n + 1).
use clartt_capital.Common.{ℕ, suc, ◌+◌, ◌-◌, ◌*◌, ◌/◌, ◌≡◌, ltb, leb, none, arith, if◌then◌else◌}
use clartt_capital.Floats.{Floats}
use clartt_capital.Floats.Naturals.{unary}

pub data ℤ : Type 0 where
  pos : ℕ → ℤ
  negsuc : ℕ → ℤ

abbrev pos_part : ℤ → ℕ
pos_part (pos n) = n
pos_part (negsuc n) = 0

abbrev neg_part : ℤ → ℕ
neg_part (pos n) = 0
neg_part (negsuc n) = suc n

abbrev sub_ℕ : ℕ → ℕ → ℤ
sub_ℕ a b = if leb b a then pos (a - b) else negsuc (b - a - 1)

abbrev pub sub : ℤ → ℤ → ℤ
sub a b = sub_ℕ (pos_part a + neg_part b) (neg_part a + pos_part b)

abbrev pub abs : ℤ → ℤ
abs (pos n) = pos n
abs (negsuc n) = pos (suc n)

abbrev mul : ℤ → ℤ → ℤ
mul a b =
    sub_ℕ (pos_part a * pos_part b + neg_part a * neg_part b)
      (pos_part a * neg_part b + neg_part a * pos_part b)

abbrev div : ℤ → ℤ → ℤ
div (pos a) (pos b) = pos (a / b)
div (pos a) (negsuc b) = sub_ℕ 0 (a / suc b)
div (negsuc a) (pos b) = sub_ℕ 0 (suc a / b)
div (negsuc a) (negsuc b) = pos (suc a / suc b)

abbrev pub integers : Floats
integers = record {
  F = ℤ;
  lit = pos;
  add = λ a b. sub_ℕ (pos_part a + pos_part b) (neg_part a + neg_part b);
  sub = sub;
  mul = mul;
  div = div;
  abs = abs;
  round = λ places a. a;
  lt = λ a b. ltb (pos_part a + neg_part b) (pos_part b + neg_part a);
  le = λ a b. leb (pos_part a + neg_part b) (pos_part b + neg_part a);
  show = λ a. unary (pos_part a + neg_part a);
  parse = λ s. none;
}

pub abs_sub : (a b : ℤ) → abs (sub a b) ≡ abs (sub b a)
abs_sub a b = ground arith
