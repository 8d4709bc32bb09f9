-- ===== src/Strategy/Tests.antt =====
-- The session filter and the guards at inputs that meet the hypotheses of the theorems.
use clartt_capital.Common.{
  ℕ, ◌≡◌, ◌||◌, ◌⊎◌, refl, true, false, not, List, [], ◌∷◌, leb, str_eq, arith,
}
use clartt_capital.Floats.Naturals.{naturals, naturals-IsLawful}
use clartt_capital.Strategy.Sessions.{
  SessionWindow, time_of, in_window, check_session_filter, resolve_session_name,
}
use clartt_capital.Strategy.Guards.{compute_position_size, divided, is_zero}
use clartt_capital.Breaker.{returned}
use clartt_capital.Strategy.Windows.{
  until, is_nil, in_window-until, check_session_filter-resolve_session_name,
}
use clartt_capital.Strategy.Sizes.{risk_size, compute_position_size_bound}

-- From 22:00 over midnight to 06:00.
abbrev night : SessionWindow
night = record { name = "asia"; start_hour = 22; start_minute = 0; end_hour = 6; end_minute = 0 }

abbrev one_o_clock : ℕ
one_o_clock = time_of 1 0

covered : in_window one_o_clock night ≡ true
unfolding in_window
covered = refl

in_window-until_example :
    in_window one_o_clock night
    ≡ leb (until (time_of 22 0) one_o_clock) (until (time_of 22 0) (time_of 6 0))
in_window-until_example =
    in_window-until one_o_clock night (omega arith)
      (omega arith, omega arith, omega arith, omega arith)

check_session_filter-resolve_session_name_example :
    check_session_filter one_o_clock (night ∷ []) ≡ (
      is_nil (night ∷ []) || not (str_eq (resolve_session_name one_o_clock (night ∷ [])) "unknown"))
check_session_filter-resolve_session_name_example =
    check_session_filter-resolve_session_name one_o_clock (night ∷ []) (refl, tt)

-- Two over a distance of one gives no size in whole numbers, so it is the minimum.
minimal : compute_position_size naturals 2 100 99 1 ≡ returned 1
unfolding compute_position_size divided
minimal = refl

compute_position_size_bound_example :
    let size = risk_size naturals naturals-IsLawful 3000 10 in
    (x : ℕ) × (compute_position_size naturals 3000 100 90 1 ≡ returned x)
    × (naturals.lt x 1 ≡ false)
    × (is_zero naturals 10 ≡ true → x ≡ 1)
    × (is_zero naturals 10 ≡ false → (naturals.lt x size ≡ false) × ((x ≡ 1) ⊎ (x ≡ size)))
compute_position_size_bound_example =
    compute_position_size_bound naturals naturals-IsLawful 3000 100 90 1 (λ d h. ground arith)

abbrev closes : List ℕ
closes = 1 ∷ 2 ∷ 3 ∷ 4 ∷ []
