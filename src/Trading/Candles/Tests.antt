-- ===== src/Trading/Candles/Tests.antt =====
-- A short history, fetched, and the theorems at inputs that meet their hypotheses.
use clartt_capital.Common.{ℕ, ◌≡◌, refl, some, List, [], ◌∷◌, map, arith}
use clartt_capital.Trading.Candles.{
  Candle, HistoricalCandleRequest, Client, within, earliest, response, insert, sort, turn, answered,
  pages, fetched, get_historical,
}
use clartt_capital.Trading.Candles.Spaced.{IsSpaced}
use clartt_capital.Trading.Candles.Complete.{last, get_historical_complete}

abbrev candle : ℕ → Candle ℕ
candle t = record { epoch = t; open_price = 10; high = 12; low = 9; close = 11 }

abbrev history : List (Candle ℕ)
history = candle 60 ∷ candle 120 ∷ candle 180 ∷ []

abbrev client : Client ℕ
client symbol granularity start end count = some (last count (within start end history))

abbrev request : HistoricalCandleRequest
request = record { broker_symbol = "R_75"; timeframe = "1m"; start_epoch = 100; end_epoch = 200 }

history-IsSpaced : IsSpaced history
history-IsSpaced = ground arith

two_of_three : get_historical client request ≡ map (response request) (candle 120 ∷ candle 180 ∷ [])
unfolding get_historical fetched pages answered turn sort insert response earliest within
two_of_three = refl

get_historical_complete_example :
    get_historical client request ≡ map (response request) (within 100 200 history)
get_historical_complete_example =
    get_historical_complete client request history 60 refl (omega arith) (omega arith)
      history-IsSpaced (λ s e. refl)
