-- ===== src/Trading/Candles/Pages.antt =====
-- The turns of the loop. (candle_service.py, `get_historical`)
use clartt_capital.Common.{
  ℕ, zero, suc, ◌-◌, ◌≡◌, ◌<◌, refl, ap, Bool, true, false, Option, none, some, List, [], ◌∷◌, ◌++◌,
  leb, ltb, length, if◌then◌else◌, arith,
}
use clartt_capital.Trading.Candles.{
  Candle, deriv_batch_limit, within, earliest, turn, answered, pages,
}

pub earlier : (a b : ℕ) → leb a b ≡ false → b - 1 < a
earlier a b h = ground arith

module _ {F : Type 0} where
  turn-ap :
      (few stuck : Bool) (kept : List (Candle F)) (first : ℕ) (f g : ℕ → List (Candle F))
      → (stuck ≡ false → f (first - 1) ≡ g (first - 1))
      → turn few stuck kept first f ≡ turn few stuck kept first g
  unfolding turn
  turn-ap true stuck kept first f g h = refl
  turn-ap false true kept first f g h = refl
  turn-ap false false kept first f g h = ap (λ cs. kept ++ cs) (h refl)

  answered-ap :
      (start end cursor : ℕ) (a : Option (List (Candle F))) (f g : ℕ → List (Candle F))
      → ((c : ℕ) → c < cursor → f c ≡ g c)
      → answered start end cursor a f ≡ answered start end cursor a g
  unfolding answered
  answered-ap start end cursor none f g h = refl
  answered-ap start end cursor (some []) f g h = refl
  answered-ap start end cursor (some (c ∷ cs)) f g h =
      let kept = within start end (c ∷ cs) in
      let first = earliest cursor kept in
      turn-ap (ltb (length (c ∷ cs)) deriv_batch_limit) (leb cursor first) kept first f g
        (λ l. h (first - 1) (earlier cursor first l))

  if-ap : (b : Bool) (x y : List (Candle F)) → x ≡ y → (if b then x else []) ≡ (if b then y else [])
  if-ap true x y h = h
  if-ap false x y h = refl

  -- Once the fuel exceeds the cursor the loop has ended on its own, whatever the API answers: more
  -- fuel collects the same candles.
  pub pages_end :
      (fetch : ℕ → ℕ → Option (List (Candle F))) (start end n m cursor : ℕ)
      → cursor < n
      → cursor < m
      → pages fetch start end n cursor ≡ pages fetch start end m cursor
  unfolding pages
  pages_end fetch start end zero m cursor h k = ground arith
  pages_end fetch start end (suc n) zero cursor h k = ground arith
  pages_end fetch start end (suc n) (suc m) cursor h k =
      if-ap (ltb start cursor)
        (answered start end cursor (fetch start cursor) (pages fetch start end n))
        (answered start end cursor (fetch start cursor) (pages fetch start end m))
        (answered-ap start end cursor (fetch start cursor) _ _
          (λ c l. pages_end fetch start end n m c (omega arith) (omega arith)))
