-- ===== src/Agents/Equity/Tests.antt =====
-- Checks of an account that loses and recovers, and the theorems at inputs that meet their hypotheses.
use clartt_capital.Common.{◌≡◌, refl, some, none, []}
use clartt_capital.Floats.Naturals.{naturals, naturals-IsLawful, unary, tally}
use clartt_capital.Redis.Values.{memory, memory-IsLawful}
use clartt_capital.Agents.Equity.{
  Config, World, unavailable, raised, drawdown, get_hwm, is_paused, remember, decide,
  activate_pause, deactivate_pause, set_hwm, check,
}
use clartt_capital.Agents.Equity.Drawdown.{reported, next_pause, told, check_hysteresis}

abbrev config : Config naturals
config = record { max_drawdown_pct = 0; recovery_pct = 0 }

abbrev fresh : World memory naturals
fresh = record { db = λ _. none; published = [] }

-- The first check stores the equity as the peak.
first_peak : get_hwm "a1" (check config "a1" (some 5) fresh).0 ≡ 5
unfolding check remember decide set_hwm get_hwm is_paused raised drawdown activate_pause
    deactivate_pause unary tally
first_peak = refl

check_hysteresis_example :
    let (w', status) = check config "a1" (some 5) fresh in
    let peak = raised naturals (get_hwm "a1" fresh) 5 in
    let pct = drawdown naturals peak 5 in
    let next = next_pause config (is_paused "a1" fresh) pct in
    (status ≡ reported naturals 5 peak next)
    × (get_hwm "a1" w' ≡ peak)
    × (is_paused "a1" w' ≡ next)
    × (w'.published ≡ told naturals (is_paused "a1" fresh) next "a1" peak 5 pct)
    × (check config "a1" none fresh ≡ (fresh, unavailable (is_paused "a1" fresh)))
check_hysteresis_example = check_hysteresis memory-IsLawful naturals-IsLawful config "a1" 5 fresh
