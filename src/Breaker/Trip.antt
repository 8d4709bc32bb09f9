-- ===== src/Breaker/Trip.antt =====
-- When the breaker opens, what it does while open, and how a probe ends. (circuit_breaker.py,
-- `execute` and its handlers)
use clartt_capital.Common.{
  ◌+◌, ◌≤◌, ◌<◌, ◌≡◌, refl, List, [], ◌∷◌, String, false, map, All, length, arith,
}
use clartt_capital.Breaker.{
  CircuitBreaker, Attempt, Outcome, Readings, returned, raised, closed, opened, execute, run,
}

module _ {ℓ} {A : Type ℓ} where
  -- Every call of `fn` in the sequence would raise.
  abbrev pub Fails : Attempt A → Type ℓ
  Fails c = (e : String) × (c.fn ≡ raised e)

  execute_failing :
      (r : Readings) (e : String) (fb : Outcome A) (b : CircuitBreaker)
      → b.state ≡ closed
      → let (b', o) = execute r (raised e) fb b in
        (b'.failure_count ≡ b.failure_count + 1)
        × (b'.failure_threshold ≡ b.failure_threshold)
        × (o ≡ raised e)
        × (b.failure_count + 1 < b.failure_threshold → b'.state ≡ closed)
        × (b.failure_threshold ≤ b.failure_count + 1 → b'.state ≡ opened)
  unfolding execute
  execute_failing r e fb b c = ground arith

  -- A closed breaker, given a sequence of calls that all fail, hands every exception to the caller.
  -- While the count stays below the threshold it is closed and counts each failure; when the
  -- sequence is not empty and the count reaches the threshold with its last call, it is open.
  pub trips_at_threshold :
      (cs : List (Attempt A)) (b : CircuitBreaker)
      → b.state ≡ closed
      → All Fails cs
      → b.failure_count + length cs ≤ b.failure_threshold
      → let (b', os) = run cs b in
        (os ≡ map (λ c. c.fn) cs)
        × (b'.failure_count ≡ b.failure_count + length cs)
        × (b.failure_count + length cs < b.failure_threshold → b'.state ≡ closed)
        × (0 < length cs → b.failure_count + length cs ≡ b.failure_threshold → b'.state ≡ opened)
  unfolding run
  trips_at_threshold [] b c f h = (refl, omega arith, λ _. c, λ z. absurd (omega arith))
  trips_at_threshold (x ∷ []) b c f h =
      ground (arith, f.0.1, execute_failing x.clock f.0.0 x.fallback b c)
  trips_at_threshold (x ∷ y ∷ cs) b c f h = ground (
    arith,
    f.0.1,
    execute_failing x.clock f.0.0 x.fallback b c,
    trips_at_threshold (y ∷ cs) (execute x.clock (raised f.0.0) x.fallback b).0,
  )

  execute_early :
      (r : Readings) (fn fb : Outcome A) (b : CircuitBreaker)
      → b.state ≡ opened
      → r.at_entry < b.opened_at + b.recovery_timeout_ms
      → execute r fn fb b ≡ (b, fb)
  unfolding execute
  execute_early r fn fb b o h = ground arith

  -- While an open breaker's recovery timeout has not passed, every call ends as its fallback does,
  -- whatever `fn` would do, and the breaker is left as it was.
  pub open_rejects :
      (cs : List (Attempt A)) (b : CircuitBreaker)
      → b.state ≡ opened
      → All (λ c. c.clock.at_entry < b.opened_at + b.recovery_timeout_ms) cs
      → run cs b ≡ (b, map (λ c. c.fallback) cs)
  unfolding run
  open_rejects [] b o h = refl
  open_rejects (c ∷ cs) b o h =
      ground (arith, execute_early c.clock c.fn c.fallback b o h.0, open_rejects cs b o h.1)

  -- Once the recovery timeout of an open breaker with no probe in flight has passed, the next call
  -- is a probe: if `fn` returns, its value is the result and the breaker is closed with no failure
  -- counted; if it raises, the fallback is the result and the breaker is open from that moment on.
  pub probe_decides :
      (r : Readings) (a : A) (e : String) (fb : Outcome A) (b : CircuitBreaker)
      → b.state ≡ opened
      → b.probe_in_flight ≡ false
      → b.opened_at + b.recovery_timeout_ms ≤ r.at_entry
      → let (good, got) = execute r (returned a) fb b in
        let (bad, gave) = execute r (raised e) fb b in
        (got ≡ returned a)
        × (good.state ≡ closed)
        × (good.failure_count ≡ 0)
        × (good.probe_in_flight ≡ false)
        × (gave ≡ fb)
        × (bad.state ≡ opened)
        × (bad.opened_at ≡ r.at_open)
        × (bad.failure_count ≡ b.failure_count)
        × (bad.probe_in_flight ≡ false)
  unfolding execute
  probe_decides r a e fb b o p h = ground arith
