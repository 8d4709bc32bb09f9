-- ===== src/Breaker/Tests.antt =====
-- Runs of the circuit breaker, and the theorems about it at inputs that meet their hypotheses.
use clartt_capital.Common.{
  ℕ, ◌+◌, ◌≡◌, ◌<◌, refl, List, [], ◌∷◌, ◌++◌, true, none, some, map, arith,
}
use clartt_capital.Breaker.{
  CircuitBreaker, Settings, Readings, Attempt, Outcome, returned, raised, closed, opened, half_open,
  init, execute, run,
}
use clartt_capital.Breaker.Trip.{trips_at_threshold}
use clartt_capital.Breaker.Concurrent.{World, Reach, at_rest, probes, probes_race}

abbrev settings : Settings
settings = record {
  failure_threshold = some 2;
  recovery_timeout_ms = none;
  probe_interval_ms = none;
  env_threshold = some 9;
  env_recovery = some 1000;
  env_probe = none;
}

abbrev breaker : CircuitBreaker
unfolding init
breaker = init "metaapi" settings true 5 5

abbrev clock : ℕ → Readings
clock t = record { at_entry = t; at_half_open = t; at_success = t; at_change = t; at_open = t }

abbrev attempt : Outcome ℕ → ℕ → Attempt ℕ
attempt o t = record { fn = o; fallback = returned 0; clock = clock t }

abbrev failures : List (Attempt ℕ)
failures = attempt (raised "timeout") 10 ∷ attempt (raised "refused") 20 ∷ []

abbrev tripped : CircuitBreaker
tripped = record breaker {
  state = opened;
  failure_count = 2;
  last_state_change_time = 20;
  opened_at = 20;
  notified = (closed, opened) ∷ [];
}

-- Two failures open it; a call at 1019 ms gets the fallback, one at 1020 ms is the probe.
whole_run :
    run (failures ++ (attempt (returned 7) 1019 ∷ attempt (returned 7) 1020 ∷ [])) breaker ≡ (
      record breaker {
        last_state_change_time = 1020;
        last_success_time = 1020;
        opened_at = 20;
        notified = (closed, opened) ∷ (opened, half_open) ∷ (half_open, closed) ∷ [];
      },
      raised "timeout" ∷ raised "refused" ∷ returned 0 ∷ returned 7 ∷ [],
    )
unfolding run execute init
whole_run = refl

trips_at_threshold_example :
    let (b', os) = run failures breaker in
    (os ≡ map (λ c. c.fn) failures)
    × (b'.failure_count ≡ breaker.failure_count + 2)
    × (breaker.failure_count + 2 < breaker.failure_threshold → b'.state ≡ closed)
    × (0 < 2 → breaker.failure_count + 2 ≡ breaker.failure_threshold → b'.state ≡ opened)
unfolding init
trips_at_threshold_example =
    trips_at_threshold failures breaker refl (("timeout", refl), (("refused", refl), tt))
      (omega arith)

-- Two probes of one breaker at once.
probes_race_example : (w : World) × Reach ℕ (at_rest tripped) w × (probes w.running ≡ 2)
unfolding init
probes_race_example = probes_race (clock 1020) tripped 1 refl refl (omega arith)
