-- ===== src/Strategy/Guards.antt =====
-- The guard filters and the sizing of packages/strategy-engine/src/strategy/signal_helpers.py. The
-- standard deviation of `statistics` is an argument, and candles are read for their closes only.
use clartt_capital.Common.{
  ℕ, ◌-◌, ◌/◌, Bool, true, false, not, ◌&&◌, List, [], ◌∷◌, ltb, leb, if◌then◌else◌, length, drop,
}
use clartt_capital.Floats.{Floats}
use clartt_capital.Breaker.{Outcome, returned, raised}
use clartt_capital.Strategy.Sessions.{SessionWindow, check_session_filter}

pub record NewsWindow : Type 0 where
  pub start : ℕ
  pub stop : ℕ

-- The fields of the configuration that the filters read.
pub record Limits (N : Floats) : Type 0 where
  pub max_spread : N.F
  pub max_slippage : N.F
  pub volatility_multiplier : N.F
  pub session_windows : List SessionWindow

unfoldable pub check_news_filter : ℕ → List NewsWindow → Bool
check_news_filter t [] = true
check_news_filter t (w ∷ ws) =
    if leb w.start t && leb t w.stop then false else check_news_filter t ws

-- `max(2, n // 4)`.
abbrev pub recent_count : ℕ → ℕ
recent_count n = if ltb 2 (n / 4) then n / 4 else 2

module _ (N : Floats) where
  unfoldable pub check_spread_filter : (spread threshold : N.F) → Bool
  check_spread_filter spread threshold = N.le spread threshold

  unfoldable pub check_slippage_tolerance : (slippage max_slippage : N.F) → Bool
  check_slippage_tolerance slippage max_slippage = N.le slippage max_slippage

  abbrev pub is_zero : N.F → Bool
  is_zero x = N.le x (N.lit 0) && N.le (N.lit 0) x

  unfoldable pub recent_closes : List N.F → List N.F
  recent_closes closes = let n = length closes in drop (n - recent_count n) closes

  module _ (stdev : List N.F → N.F) where
    unfoldable pub check_volatility_guard : List N.F → (multiplier : N.F) → Bool
    unfolding recent_closes
    check_volatility_guard closes multiplier =
        let recent = recent_closes closes in
        if ltb (length closes) 4
        then true
        else if is_zero (stdev closes)
        then true
        else if ltb (length recent) 2
        then true
        else N.le (stdev recent) (N.mul multiplier (stdev closes))

    unfoldable pub compute_volatility_ratio : List N.F → N.F
    unfolding recent_closes
    compute_volatility_ratio closes =
        if ltb (length closes) 4
        then N.lit 0
        else if is_zero (stdev closes)
        then N.lit 0
        else N.div (stdev (recent_closes closes)) (stdev closes)

    unfoldable pub run_guard_filters :
        (closes : List N.F)
        → Limits N
        → (timestamp time_of_day : ℕ) → (spread estimated_slippage : N.F) → List NewsWindow
        → Bool
    unfolding check_spread_filter check_volatility_guard check_news_filter check_slippage_tolerance
    run_guard_filters closes c timestamp time_of_day spread slippage news =
        if not (check_spread_filter spread c.max_spread)
        then false
        else if not (check_volatility_guard closes c.volatility_multiplier)
        then false
        else if not (check_news_filter timestamp news)
        then false
        else if not (check_slippage_tolerance slippage c.max_slippage)
        then false
        else if not (check_session_filter time_of_day c.session_windows)
        then false
        else true

  -- Python's division of floats, which raises on zero.
  unfoldable pub divided : N.F → N.F → Outcome N.F
  divided a b = if is_zero b then raised "float division by zero" else returned (N.div a b)

  unfoldable pub compute_position_size :
      (risk_pct entry_price stop_loss min_size : N.F) → Outcome N.F
  unfolding divided
  compute_position_size risk_pct entry_price stop_loss min_size =
      let distance = N.abs (N.sub entry_price stop_loss) in
      let sized : Outcome N.F = elim (divided risk_pct (N.mul distance (N.lit 100))) [
        | raised e ↦ raised e
        | returned x ↦
            let size = N.round 2 x in returned (if N.lt min_size size then size else min_size)
      ] in
      if is_zero distance then returned min_size else sized
