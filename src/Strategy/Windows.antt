-- ===== src/Strategy/Windows.antt =====
-- What a session window covers, and that the filter and the name agree. (signal_helpers.py)
use clartt_capital.Common.{
  ℕ, ◌+◌, ◌-◌, ◌<◌, ◌≤◌, ◌≡◌, refl, Bool, true, false, not, ◌||◌, List, [], ◌∷◌, str_eq, leb, All,
  if◌then◌else◌, Bool-cases, inl, inr, arith,
}
use clartt_capital.Strategy.Sessions.{
  SessionWindow, time_of, in_window, in_any, check_session_filter, resolve_session_name,
}

-- The microseconds of a day.
abbrev pub day : ℕ
day = 86400000000

-- From one time of day forward to the next occurrence of another.
abbrev pub until : (from to : ℕ) → ℕ
until from to = if leb from to then to - from else (to + day) - from

abbrev pub IsWindow : SessionWindow → Type 0
IsWindow w = (w.start_hour ≤ 23) × (w.start_minute ≤ 59) × (w.end_hour ≤ 23) × (w.end_minute ≤ 59)

-- A window covers a time of day if and only if, going forward from its start, the time comes no later
-- than its end: windows over midnight are read as the others are.
pub in_window-until :
    (t : ℕ) (w : SessionWindow)
    → t < day
    → IsWindow w
    → in_window t w
      ≡ leb
          (until (time_of w.start_hour w.start_minute) t)
          (until (time_of w.start_hour w.start_minute) (time_of w.end_hour w.end_minute))
unfolding in_window
in_window-until t w l (a, b, c, d) = ground arith

in_any-resolve_session_name :
    (t : ℕ) (ws : List SessionWindow)
    → All (λ w. str_eq w.name "unknown" ≡ false) ws
    → in_any t ws ≡ not (str_eq (resolve_session_name t ws) "unknown")
unfolding in_any resolve_session_name
in_any-resolve_session_name t [] h = refl
in_any-resolve_session_name t (w ∷ ws) h = elim (Bool-cases (in_window t w)) [
  | inl e ↦ rw e (ground (arith, h.0))
  | inr e ↦ rw e (in_any-resolve_session_name t ws h.1)
]

abbrev pub is_nil : List SessionWindow → Bool
is_nil [] = true
is_nil (_ ∷ _) = false

-- If no window bears the name "unknown", the filter lets a time pass if and only if no sessions are
-- configured or a session is found by name.
pub check_session_filter-resolve_session_name :
    (t : ℕ) (ws : List SessionWindow)
    → All (λ w. str_eq w.name "unknown" ≡ false) ws
    → check_session_filter t ws ≡ (is_nil ws || not (str_eq (resolve_session_name t ws) "unknown"))
unfolding check_session_filter
check_session_filter-resolve_session_name t [] h = refl
check_session_filter-resolve_session_name t (w ∷ ws) h = in_any-resolve_session_name t (w ∷ ws) h
