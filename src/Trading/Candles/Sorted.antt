-- ===== src/Trading/Candles/Sorted.antt =====
-- Sorting the responses of candles that come in pages, the newest first. (candle_service.py)
use clartt_capital.Common.{
  ℕ, ◌+◌, ◌≡◌, ◌<◌, ◌≤◌, refl, ap, sym, ◌∙◌, List, [], ◌∷◌, ◌++◌, map, ltb, All, arith, append-nil,
  if◌then◌else◌,
}
use clartt_capital.Trading.Candles.{
  Candle, CandleResponse, HistoricalCandleRequest, earliest, response, insert, sort,
}
use clartt_capital.Trading.Candles.Spaced.{IsBefore, IsSpaced, All-append}

lower : (a b : ℕ) → a ≤ b → (if ltb a b then a else b) ≡ a
lower a b h = ground arith

stays : (a b : ℕ) → a + 60 ≤ b → (if ltb b a then b else a) ≡ a
stays a b h = ground arith

module _ {F : Type 0} where
  earliest-low :
      (t : Candle F) (ts : List (Candle F)) → All (IsBefore t) ts → earliest t.epoch ts ≡ t.epoch
  unfolding earliest
  earliest-low t [] h = refl
  earliest-low t (d ∷ ds) (p, h) =
      ap (λ y. earliest y ds) (stays t.epoch d.epoch p) ∙ earliest-low t ds h

  All-remove :
      (P : Candle F → Type 0) (t : Candle F) (cs ts : List (Candle F))
      → All P (cs ++ (t ∷ ts))
      → All P (cs ++ ts)
  All-remove P t [] ts (p, h) = h
  All-remove P t (c ∷ cs) ts (p, h) = (p, All-remove P t cs ts h)

  IsSpaced-remove :
      (t : Candle F) (cs ts : List (Candle F)) → IsSpaced (cs ++ (t ∷ ts)) → IsSpaced (cs ++ ts)
  IsSpaced-remove t [] ts (p, h) = h
  IsSpaced-remove t (c ∷ cs) ts (p, h) =
      (All-remove (IsBefore c) t cs ts p, IsSpaced-remove t cs ts h)

  insert-after :
      (x y : CandleResponse F) (ys : List (CandleResponse F))
      → y.timestamp < x.timestamp
      → insert x (y ∷ ys) ≡ y ∷ insert x ys
  unfolding insert
  insert-after x y ys h = ground arith

  pub earliest-head :
      (e : ℕ) (t : Candle F) (ts : List (Candle F))
      → t.epoch ≤ e
      → All (IsBefore t) ts
      → earliest e (t ∷ ts) ≡ t.epoch
  unfolding earliest
  earliest-head e t ts l h = ap (λ y. earliest y ts) (lower t.epoch e l) ∙ earliest-low t ts h

module _ {F : Type 0} (q : HistoricalCandleRequest) where
  minute_before :
      (c d : Candle F) → IsBefore c d → (response q c).timestamp < (response q d).timestamp
  unfolding response
  minute_before c d h = omega arith

  insert-first :
      (c : Candle F) (cs : List (Candle F))
      → All (IsBefore c) cs
      → insert (response q c) (map (response q) cs) ≡ map (response q) (c ∷ cs)
  unfolding insert response
  insert-first c [] h = refl
  insert-first c (d ∷ ds) (p, h) = let l = minute_before c d p in ground arith

  insert-past :
      (t : Candle F) (cs ts : List (Candle F))
      → IsSpaced (cs ++ (t ∷ ts))
      → insert (response q t) (map (response q) (cs ++ ts)) ≡ map (response q) (cs ++ (t ∷ ts))
  insert-past t [] ts (p, h) = insert-first t ts p
  insert-past t (c ∷ cs) ts (p, h) =
      let (_, (before, _)) = All-append (IsBefore c) cs (t ∷ ts) p in
      insert-after (response q t) (response q c) (map (response q) (cs ++ ts))
        (minute_before c t before)
      ∙ ap (λ l. response q c ∷ l) (insert-past t cs ts h)

  -- A page is put behind those that are older.
  pub sort-page :
      (cs ts rest : List (Candle F))
      → IsSpaced (cs ++ ts)
      → sort (map (response q) rest) ≡ map (response q) cs
      → sort (map (response q) (ts ++ rest)) ≡ map (response q) (cs ++ ts)
  unfolding sort
  sort-page cs [] rest h e = e ∙ ap (map (response q)) (sym (append-nil cs))
  sort-page cs (t ∷ ts) rest h e =
      ap (insert (response q t)) (sort-page cs ts rest (IsSpaced-remove t cs ts h) e)
      ∙ insert-past t cs ts h

  pub sort-IsSpaced :
      (cs : List (Candle F)) → IsSpaced cs → sort (map (response q) cs) ≡ map (response q) cs
  unfolding sort
  sort-IsSpaced cs h =
      ap (λ l. sort (map (response q) l)) (sym (append-nil cs)) ∙ sort-page [] cs [] h refl
