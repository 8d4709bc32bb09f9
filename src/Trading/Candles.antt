-- ===== src/Trading/Candles.antt =====
-- candles/candle_service.py: `CandleService.get_historical`, with the timeframes and the limit of
-- candles/deriv_data_client.py. The dates of the request are given in seconds since 1970. The Deriv
-- API is an argument: it raises, or answers with candles. A timestamp is the whole minutes since 1970,
-- which the source prints, in an order that is the order of the texts.
mod Spaced
mod Sorted
mod Pages
mod Turns
mod Complete
mod Tests
use clartt_capital.Common.{
  ℕ, zero, suc, ◌-◌, ◌/◌, Bool, true, false, ◌&&◌, Option, none, some, List, [], ◌∷◌, ◌++◌, map,
  String, str_eq, ltb, leb, length, if◌then◌else◌,
}

pub record Candle (F : Type 0) : Type 0 where
  pub epoch : ℕ
  pub open_price : F
  pub high : F
  pub low : F
  pub close : F

pub record CandleResponse (F : Type 0) : Type 0 where
  pub instrument : String
  pub timeframe : String
  pub open_price : F
  pub high : F
  pub low : F
  pub close : F
  pub volume : ℕ
  pub timestamp : ℕ

pub record HistoricalCandleRequest : Type 0 where
  pub broker_symbol : String
  pub timeframe : String
  pub start_epoch : ℕ
  pub end_epoch : ℕ

-- GRANULARITY_MAP.
abbrev pub granularity_map : List (String × ℕ)
granularity_map =
    ("1m", 60)
    ∷ ("5m", 300)
    ∷ ("15m", 900)
    ∷ ("30m", 1800)
    ∷ ("1h", 3600)
    ∷ ("4h", 14400)
    ∷ ("1d", 86400)
    ∷ []

abbrev pub lookup : String → List (String × ℕ) → Option ℕ
lookup key [] = none
lookup key ((k, v) ∷ rest) = if str_eq k key then some v else lookup key rest

-- DERIV_BATCH_LIMIT.
abbrev pub deriv_batch_limit : ℕ
deriv_batch_limit = 5000

-- `get_historical_candles(symbol, granularity, start, end, count)`, where `none` is an exception.
abbrev pub Client : Type 0 → Type 0
Client F = String → ℕ → (start end count : ℕ) → Option (List (Candle F))

module _ {F : Type 0} where
  -- The candles of a batch that are in the range of the request.
  unfoldable pub within : ℕ → ℕ → List (Candle F) → List (Candle F)
  within start end [] = []
  within start end (c ∷ cs) =
      let rest = within start end cs in
      if leb start c.epoch && leb c.epoch end then c ∷ rest else rest

  unfoldable pub earliest : ℕ → List (Candle F) → ℕ
  earliest epoch [] = epoch
  earliest epoch (c ∷ cs) = earliest (if ltb c.epoch epoch then c.epoch else epoch) cs

  unfoldable pub response : HistoricalCandleRequest → Candle F → CandleResponse F
  response q c = record {
    instrument = q.broker_symbol;
    timeframe = q.timeframe;
    open_price = c.open_price;
    high = c.high;
    low = c.low;
    close = c.close;
    volume = 0;
    timestamp = c.epoch / 60;
  }

  -- The stable sort by timestamp.
  unfoldable pub insert : CandleResponse F → List (CandleResponse F) → List (CandleResponse F)
  insert x [] = x ∷ []
  insert x (y ∷ ys) =
      let rest = insert x ys in if leb x.timestamp y.timestamp then x ∷ y ∷ ys else y ∷ rest

  unfoldable pub sort : List (CandleResponse F) → List (CandleResponse F)
  unfolding insert
  sort [] = []
  sort (x ∷ xs) = insert x (sort xs)

  -- The end of a turn: the batch was not full, or its earliest candle is not before the cursor, or the
  -- turns go on from just before it.
  unfoldable pub turn :
      (few stuck : Bool) → List (Candle F) → ℕ → (ℕ → List (Candle F)) → List (Candle F)
  turn true stuck kept first next = kept
  turn false true kept first next = kept
  turn false false kept first next = kept ++ next (first - 1)

  -- A turn of the loop after the API has answered: the candles that it collects, with those of the
  -- turns that follow from a lower cursor.
  unfoldable pub answered :
      ℕ → ℕ → ℕ → Option (List (Candle F)) → (ℕ → List (Candle F)) → List (Candle F)
  unfolding turn
  answered start end cursor none next = []
  answered start end cursor (some []) next = []
  answered start end cursor (some (c ∷ cs)) next =
      let kept = within start end (c ∷ cs) in
      let first = earliest cursor kept in
      turn (ltb (length (c ∷ cs)) deriv_batch_limit) (leb cursor first) kept first next

  -- The loop. Each turn lowers the cursor, so there are at most as many as the cursor counts seconds.
  unfoldable pub pages : (ℕ → ℕ → Option (List (Candle F))) → ℕ → ℕ → ℕ → ℕ → List (Candle F)
  unfolding answered
  pages fetch start end zero cursor = []
  pages fetch start end (suc n) cursor =
      if ltb start cursor
      then answered start end cursor (fetch start cursor) (pages fetch start end n)
      else []

  -- All pages, in the order of time.
  unfoldable pub fetched : Client F → ℕ → HistoricalCandleRequest → List (CandleResponse F)
  fetched client granularity q = sort (
      map (response q) (
        pages (λ s e. client q.broker_symbol granularity s e deriv_batch_limit) q.start_epoch
          q.end_epoch (suc q.end_epoch) q.end_epoch))

  unfoldable pub get_historical : Client F → HistoricalCandleRequest → List (CandleResponse F)
  get_historical client q = elim (lookup q.timeframe granularity_map) [
    | none ↦ []
    | some granularity ↦ fetched client granularity q
  ]
