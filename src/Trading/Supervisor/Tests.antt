-- ===== src/Trading/Supervisor/Tests.antt =====
-- Runs of the supervisor of two accounts, whose accounts are their ids.
use clartt_capital.Common.{
  ℕ, ◌<◌, true, arith, if◌then◌else◌, ◌≡◌, refl, List, [], ◌∷◌, String, some, str_eq, lookup,
}
use clartt_capital.Breaker.{Outcome, returned, raised}
use clartt_capital.Trading.Supervisor.{
  Step, start, entered, left, init, run, active_workers, restart_worker, stop_all,
}
use clartt_capital.Trading.Supervisor.OneWorker.{run_one_worker}
use clartt_capital.Trading.Supervisor.Isolation.{Untouched, restart_isolated, stop_all_stops}

abbrev factory : String → Outcome (Unit {0})
factory a = if str_eq a "broken" then raised "no client" else returned tt

-- The worker of the first account is started twice, and that of the second crashes.
abbrev day : List (Step String)
day =
    start "a" "a"
    ∷ entered 0
    ∷ start "b" "b"
    ∷ entered 1
    ∷ start "a" "a"
    ∷ entered 2
    ∷ left 1
    ∷ start "c" "broken"
    ∷ []

kept : (run factory day init).workers ≡ ("b", 1) ∷ ("a", 2) ∷ []
unfolding run init
kept = refl

crashed : active_workers (run factory day init) ≡ "a" ∷ []
unfolding run init active_workers
crashed = refl

run_one_worker_example : (◌≡◌ {A = ℕ} 2 2) × (lookup "a" (run factory day init).workers ≡ some 2)
unfolding run init
run_one_worker_example = run_one_worker factory day 2 2 (omega arith) (omega arith) refl refl refl

restart_isolated_example :
    Untouched "a" 2 (run factory day init) (restart_worker factory "b" (run factory day init)).0
unfolding run init
restart_isolated_example = restart_isolated factory day "b" "a" 2 refl refl

stop_all_stops_example :
    let s = stop_all (run factory day init) in
    (s.workers ≡ []) × (s.threads ≡ []) × ((h : ℕ) → h < s.made → s.told h ≡ true)
stop_all_stops_example = stop_all_stops factory day
