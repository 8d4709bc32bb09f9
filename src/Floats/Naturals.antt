-- ===== src/Floats/Naturals.antt =====
-- Floats on which the laws can be checked: natural numbers, a text being the number in unary.
use clartt_capital.Common.{
  ℕ, zero, suc, ◌+◌, ◌-◌, ◌*◌, ◌/◌, ◌≡◌, refl, ap, String, some, ltb, leb, arith,
}
use clartt_capital.Floats.{Floats, IsLawful}
use Prim.Native.String.{[], ◌∷◌}

unfoldable pub unary : ℕ → String
unary zero = []
unary (suc n) = "1" ∷ unary n

unfoldable pub tally : String → ℕ
tally [] = 0
tally (_ ∷ s) = suc (tally s)

tally-unary : (n : ℕ) → tally (unary n) ≡ n
unfolding unary tally
tally-unary zero = refl
tally-unary (suc n) = ap suc (tally-unary n)

abbrev pub naturals : Floats
naturals = record {
  F = ℕ;
  lit = λ n. n;
  add = ◌+◌;
  sub = ◌-◌;
  mul = ◌*◌;
  div = ◌/◌;
  abs = λ n. n;
  round = λ places n. n;
  lt = ltb;
  le = leb;
  show = unary;
  parse = λ s. some (tally s);
}

pub naturals-IsLawful : IsLawful naturals
naturals-IsLawful = record {
  le_trans = λ a b c h k. ground arith;
  lt_of_lt_of_le = λ a b c h k. ground arith;
  lt_of_le_of_lt = λ a b c h k. ground arith;
  le_of_lt = λ a b h. ground arith;
  not_le_of_lt = λ a b h. ground arith;
  div_le_div = λ a b h. ground arith;
  lt_irrefl = λ a. ground arith;
  le_refl_of_lt = λ a b h. ground arith;
  lit_mono = λ m n h. ground arith;
  parse-show = λ a h. ap some (tally-unary a);
}
