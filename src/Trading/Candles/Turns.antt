-- ===== src/Trading/Candles/Turns.antt =====
-- One turn of the loop, on candles that are at least a minute apart. (candle_service.py)
use clartt_capital.Common.{
  ℕ, ◌-◌, ◌≡◌, ◌<◌, ◌⊎◌, refl, ap, sym, ◌∙◌, Bool, true, false, List, [], ◌∷◌, ◌++◌, map, leb, ltb,
  All, arith, append-nil, inl, inr, length,
}
use clartt_capital.Trading.Candles.{
  Candle, HistoricalCandleRequest, deriv_batch_limit, within, response, sort, turn,
}
use clartt_capital.Trading.Candles.Spaced.{
  IsBefore, IsSpaced, IsIn, AllBefore, within-all, within-none, within-append, IsSpaced-append,
}
use clartt_capital.Trading.Candles.Sorted.{sort-page, sort-IsSpaced}

module _ {F : Type 0} (q : HistoricalCandleRequest) (end : ℕ) where
  narrow :
      (start : ℕ) (t : Candle F) (cs ts : List (Candle F))
      → All (IsIn start end) cs
      → AllBefore cs (t ∷ ts)
      → All (IsIn start (t.epoch - 1)) cs
  narrow start t [] ts h b = tt
  narrow start t (c ∷ cs) ts ((l, u), h) ((b, _), bs) =
      ((l, omega arith), narrow start t cs ts h bs)

  later :
      (t : Candle F) (ts : List (Candle F))
      → 0 < t.epoch
      → All (IsBefore t) ts
      → All (λ c. t.epoch - 1 < c.epoch) ts
  later t [] z h = tt
  later t (c ∷ cs) z (b, h) = (omega arith, later t cs z h)

  -- The candles before a page are those up to just before its first one.
  pub within-older :
      (start : ℕ) (t : Candle F) (cs ts : List (Candle F))
      → 0 < t.epoch
      → IsSpaced (cs ++ (t ∷ ts))
      → All (IsIn start end) cs
      → within start (t.epoch - 1) (cs ++ (t ∷ ts)) ≡ cs
  within-older start t cs ts z h r =
      let (_, (after, _), before) = IsSpaced-append cs (t ∷ ts) h in
      let e = t.epoch - 1 in
      within-append start e cs (t ∷ ts)
      ∙ ap (λ l. l ++ within start e (t ∷ ts))
          (within-all start e cs (narrow start t cs ts r before))
      ∙ ap (λ l. cs ++ l) (within-none start e (t ∷ ts) (omega arith, later t ts z after))
      ∙ append-nil cs

  pub gone :
      (start : ℕ) (t : Candle F) (cs ts : List (Candle F))
      → All (IsIn start end) cs
      → AllBefore cs (t ∷ ts)
      → (start < t.epoch - 1) ⊎ (cs ≡ [])
  gone start t [] ts h b = inr refl
  gone start t (c ∷ cs) ts ((l, u), h) ((b, _), _) = inl (omega arith)

  -- A full page begins before its cursor.
  pub full :
      (start cursor : ℕ) (t : Candle F) (ts : List (Candle F))
      → ltb (length (t ∷ ts)) deriv_batch_limit ≡ false
      → All (IsBefore t) ts
      → All (IsIn start cursor) ts
      → leb cursor t.epoch ≡ false
  full start cursor t [] h b r = ground arith
  full start cursor t (u ∷ us) h (b, _) ((l, k), _) = ground arith

  pub turn_complete :
      (few stuck : Bool) (t : Candle F) (cs ts : List (Candle F)) (next : ℕ → List (Candle F))
      → IsSpaced (cs ++ (t ∷ ts))
      → (few ≡ true → cs ≡ [])
      → (few ≡ false → stuck ≡ false)
      → sort (map (response q) (next (t.epoch - 1))) ≡ map (response q) cs
      → sort (map (response q) (turn few stuck (t ∷ ts) t.epoch next))
        ≡ map (response q) (cs ++ (t ∷ ts))
  unfolding turn
  turn_complete true stuck t cs ts next h f g e =
      let (_, spaced, _) = IsSpaced-append cs (t ∷ ts) h in
      sort-IsSpaced q (t ∷ ts) spaced ∙ ap (λ l. map (response q) (l ++ (t ∷ ts))) (sym (f refl))
  turn_complete false true t cs ts next h f g e = let x = g refl in ground arith
  turn_complete false false t cs ts next h f g e = sort-page q cs (t ∷ ts) (next (t.epoch - 1)) h e
