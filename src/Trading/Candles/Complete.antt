-- ===== src/Trading/Candles/Complete.antt =====
-- What `get_historical` returns when the API keeps its promise. (candle_service.py)
use clartt_capital.Common.{
  ℕ, zero, suc, ◌-◌, ◌≡◌, ◌<◌, ◌≤◌, ◌⊎◌, refl, ap, sym, subst, ◌∙◌, Bool, false, Option, some, List,
  [], ◌∷◌, ◌++◌, map, leb, ltb, All, arith, if◌then◌else◌, Bool-cases, inl, inr, length, drop,
  length-drop,
}
use clartt_capital.Trading.Candles.{
  Candle, CandleResponse, HistoricalCandleRequest, Client, deriv_batch_limit, granularity_map,
  lookup, within, earliest, response, sort, turn, answered, pages, fetched, get_historical,
}
use clartt_capital.Trading.Candles.Spaced.{
  IsSpaced, IsIn, within-IsSpaced, within-IsIn, within-all, within-within, All-append,
  IsSpaced-append,
}
use clartt_capital.Trading.Candles.Sorted.{earliest-head}
use clartt_capital.Trading.Candles.Turns.{within-older, gone, full, turn_complete}

module _ {F : Type 0} where
  -- The last candles of a list, as many as are asked for.
  abbrev pub last : ℕ → List (Candle F) → List (Candle F)
  last n cs = drop (length cs - n) cs

  -- The API answers with the last `count` candles of its history from `start` to `end`.
  abbrev pub Serves : (ℕ → ℕ → Option (List (Candle F))) → List (Candle F) → Type 0
  Serves fetch history =
      (start end : ℕ) → fetch start end ≡ some (last deriv_batch_limit (within start end history))

  -- The candles before the last ones.
  older : ℕ → List (Candle F) → List (Candle F)
  older zero cs = []
  older (suc n) [] = []
  older (suc n) (c ∷ cs) = c ∷ older n cs

  older-drop : (n : ℕ) (cs : List (Candle F)) → older n cs ++ drop n cs ≡ cs
  unfolding older
  older-drop zero cs = refl
  older-drop (suc n) [] = refl
  older-drop (suc n) (c ∷ cs) = ap (λ l. c ∷ l) (older-drop n cs)

  older-none : (n : ℕ) (cs : List (Candle F)) → n ≡ 0 → older n cs ≡ []
  unfolding older
  older-none zero cs h = refl
  older-none (suc n) cs h = ground arith

module _ {F : Type 0} (q : HistoricalCandleRequest) (end : ℕ) (history : List (Candle F)) where
  -- What the later turns do from a lower cursor.
  abbrev Collects : (start cursor : ℕ) → (ℕ → List (Candle F)) → Type 0
  Collects start cursor next =
      (c : ℕ)
      → c < cursor
      → (start < c) ⊎ (within start c history ≡ [])
      → sort (map (response q) (next c)) ≡ map (response q) (within start c history)

  widen :
      (start cursor : ℕ) (cs : List (Candle F))
      → cursor ≤ end
      → All (IsIn start cursor) cs
      → All (IsIn start end) cs
  widen start cursor [] l h = tt
  widen start cursor (c ∷ cs) l ((a, b), h) = ((a, omega arith), widen start cursor cs l h)

  -- From just before a page, the later turns collect what is older.
  older-Collects :
      (start cursor : ℕ) (t : Candle F) (cs ts : List (Candle F)) (next : ℕ → List (Candle F))
      → 0 < start
      → cursor ≤ end
      → within start cursor history ≡ cs ++ (t ∷ ts)
      → IsSpaced (cs ++ (t ∷ ts))
      → All (IsIn start cursor) (cs ++ (t ∷ ts))
      → Collects start cursor next
      → sort (map (response q) (next (t.epoch - 1))) ≡ map (response q) cs
  older-Collects start cursor t cs ts next z u w h r collects =
      let (rc, ((l, k), _)) = All-append (IsIn start cursor) cs (t ∷ ts) r in
      let in_range = widen start cursor cs u rc in
      let (_, _, before) = IsSpaced-append cs (t ∷ ts) h in
      let e : within start (t.epoch - 1) history ≡ cs =
        sym (within-within start (t.epoch - 1) cursor history (omega arith))
        ∙ ap (within start (t.epoch - 1)) w
        ∙ within-older q end start t cs ts (omega arith) h in_range in
      collects (t.epoch - 1) (omega arith)
        (elim (gone q end start t cs ts in_range before) [ inl m ↦ inl m | inr m ↦ inr (e ∙ m) ])
      ∙ ap (map (response q)) e

  answered_complete :
      (start cursor : ℕ) (cs ts : List (Candle F)) (next : ℕ → List (Candle F))
      → 0 < start
      → cursor ≤ end
      → within start cursor history ≡ cs ++ ts
      → IsSpaced (cs ++ ts)
      → All (IsIn start cursor) (cs ++ ts)
      → (length ts < deriv_batch_limit → cs ≡ [])
      → Collects start cursor next
      → sort (map (response q) (answered start end cursor (some ts) next))
        ≡ map (response q) (cs ++ ts)
  unfolding answered sort
  answered_complete start cursor cs [] next z u w h r few collects =
      ap (λ l. map (response q) (l ++ [])) (sym (few (ground arith)))
  answered_complete start cursor cs (t ∷ ts) next z u w h r few collects =
      let (_, (rt, rs)) = All-append (IsIn start cursor) cs (t ∷ ts) r in
      let (_, (after, _), _) = IsSpaced-append cs (t ∷ ts) h in
      let limit = ltb (length (t ∷ ts)) deriv_batch_limit in
      let kept : within start end (t ∷ ts) ≡ t ∷ ts =
        within-all start end (t ∷ ts) (widen start cursor (t ∷ ts) u (rt, rs)) in
      let first : earliest cursor (t ∷ ts) ≡ t.epoch = earliest-head cursor t ts rt.1 after in
      ap
        (λ k. sort (
          map (response q)
            (turn limit (leb cursor (earliest cursor k)) k (earliest cursor k) next)))
        kept
      ∙ ap (λ f. sort (map (response q) (turn limit (leb cursor f) (t ∷ ts) f next))) first
      ∙ turn_complete q end limit (leb cursor t.epoch) t cs ts next h (λ e. few (ground arith))
          (λ e. full q end start cursor t ts e after rs)
          (older-Collects start cursor t cs ts next z u w h r collects)

  pages_complete :
      (fetch : ℕ → ℕ → Option (List (Candle F))) (start n cursor : ℕ)
      → Serves fetch history
      → IsSpaced history
      → 0 < start
      → cursor < n
      → cursor ≤ end
      → (start < cursor) ⊎ (within start cursor history ≡ [])
      → sort (map (response q) (pages fetch start end n cursor))
        ≡ map (response q) (within start cursor history)
  unfolding pages sort
  pages_complete fetch start zero cursor serves h z l u d = ground arith
  pages_complete fetch start (suc n) cursor serves h z l u d =
      elim (Bool-cases (ltb start cursor)) [
        | inl e ↦
            ap body e
            ∙ ap (λ a. sort (map (response q) (answered start end cursor a next)))
                (serves start cursor)
            ∙ answered_complete start cursor (older k w) (drop k w) next z u (sym whole)
                (subst IsSpaced (sym whole) (within-IsSpaced start cursor history h))
                (subst (All (IsIn start cursor)) (sym whole) (within-IsIn start cursor history))
                (λ few. older-none k w (none_older few))
                (λ c m b. pages_complete fetch start n c serves h z (omega arith) (omega arith) b)
            ∙ ap (map (response q)) whole
        | inr e ↦ ap body e ∙ ap (map (response q)) (sym (nothing_left e))
      ]
    where
      w : List (Candle F)
      w = within start cursor history

      k : ℕ
      k = length w - deriv_batch_limit

      next : ℕ → List (Candle F)
      next = pages fetch start end n

      body : Bool → List (CandleResponse F)
      body b =
          sort (
            map (response q)
              (if b then answered start end cursor (fetch start cursor) next else []))

      whole : older k w ++ drop k w ≡ w
      whole = older-drop k w

      none_older : length (drop k w) < deriv_batch_limit → k ≡ 0
      none_older few = omega (arith, length-drop k w)

      nothing_left : ltb start cursor ≡ false → w ≡ []
      nothing_left e = elim d [ inl m ↦ ground arith | inr n ↦ n ]

-- For a known timeframe, a range that begins after 1970 and is not empty, and an API that answers with
-- the last 5000 candles of a history whose candles are a minute or more apart, `get_historical`
-- returns every candle of that history in the range, each once, in the order of time.
pub get_historical_complete :
    {F : Type 0}
    → (client : Client F) (q : HistoricalCandleRequest) (history : List (Candle F))
      (granularity : ℕ)
    → lookup q.timeframe granularity_map ≡ some granularity
    → 0 < q.start_epoch
    → q.start_epoch < q.end_epoch
    → IsSpaced history
    → Serves (λ s e. client q.broker_symbol granularity s e deriv_batch_limit) history
    → get_historical client q ≡ map (response q) (within q.start_epoch q.end_epoch history)
unfolding get_historical fetched
get_historical_complete client q history g known z l h serves =
    rw (known, get_historical)
      (pages_complete q q.end_epoch history (λ s e. client q.broker_symbol g s e deriv_batch_limit)
        q.start_epoch (suc q.end_epoch) q.end_epoch serves h z (omega arith) (omega arith) (inl l))
