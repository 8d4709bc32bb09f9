-- ===== src/Strategy/Sessions.antt =====
-- `check_session_filter` and `resolve_session_name` of packages/strategy-engine/src/strategy,
-- signal_helpers.py. A time of day is the microseconds since midnight.
use clartt_capital.Common.{
  ℕ, ◌+◌, ◌*◌, Bool, true, false, ◌&&◌, ◌||◌, List, [], ◌∷◌, String, leb, if◌then◌else◌,
}

-- Field constraints: hours are at most 23, minutes at most 59.
pub record SessionWindow : Type 0 where
  pub name : String
  pub start_hour : ℕ
  pub start_minute : ℕ
  pub end_hour : ℕ
  pub end_minute : ℕ

-- `time(hour, minute)`.
abbrev pub time_of : (hour minute : ℕ) → ℕ
time_of hour minute = (hour * 60 + minute) * 60000000

-- The test in the body of both loops. A window that ends before it starts goes over midnight.
unfoldable pub in_window : ℕ → SessionWindow → Bool
in_window t w =
    let start = time_of w.start_hour w.start_minute in
    let stop = time_of w.end_hour w.end_minute in
    if leb start stop then leb start t && leb t stop else leb start t || leb t stop

unfoldable pub in_any : ℕ → List SessionWindow → Bool
unfolding in_window
in_any t [] = false
in_any t (w ∷ ws) = if in_window t w then true else in_any t ws

unfoldable pub check_session_filter : ℕ → List SessionWindow → Bool
unfolding in_any
check_session_filter t [] = true
check_session_filter t (w ∷ ws) = in_any t (w ∷ ws)

unfoldable pub resolve_session_name : ℕ → List SessionWindow → String
unfolding in_window
resolve_session_name t [] = "unknown"
resolve_session_name t (w ∷ ws) = if in_window t w then w.name else resolve_session_name t ws
