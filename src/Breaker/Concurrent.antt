-- ===== src/Breaker/Concurrent.antt =====
-- Calls of `execute` that overlap on several threads: what a caller does before `fn` and what it does
-- after, and interleavings of these. `execute` takes no lock: a switch of threads is possible while
-- `fn` runs, and between the test of `_probe_in_flight` and the write that follows it. A caller
-- alone is `admit` followed by `settle`. (circuit_breaker.py, `execute`)
use clartt_capital.Common.{
  ℕ, zero, suc, ◌+◌, ◌≤◌, ◌≡◌, refl, sym, ap, List, [], ◌∷◌, ◌++◌, true, false, arith, leb,
  if◌then◌else◌,
}
use clartt_capital.Breaker.{
  CircuitBreakerState, CircuitBreaker, Outcome, Readings, returned, raised, closed, opened,
  half_open, transition_to, execute_closed, finish_probe, execute,
}

-- Where `execute` stands when it has run up to the call of `fn`, or has turned the caller away.
pub data Ticket : Type 0 where
  closed_call probe_call turned_away : Ticket

admit_half_open : CircuitBreaker → CircuitBreaker × Ticket
admit_half_open b =
    if b.probe_in_flight
    then (b, turned_away)
    else (record b { probe_in_flight = true }, probe_call)

admit_open : Readings → CircuitBreaker → CircuitBreaker × Ticket
unfolding admit_half_open transition_to
admit_open r b =
    if leb (b.opened_at + b.recovery_timeout_ms) r.at_entry
    then admit_half_open (transition_to half_open r.at_half_open r.at_half_open b)
    else (b, turned_away)

admit_in : CircuitBreakerState → Readings → CircuitBreaker → CircuitBreaker × Ticket
unfolding admit_open
admit_in closed r b = (b, closed_call)
admit_in opened r b = admit_open r b
admit_in half_open r b = admit_half_open b

unfoldable pub admit : Readings → CircuitBreaker → CircuitBreaker × Ticket
unfolding admit_in
admit r b = admit_in b.state r b

-- What a caller does with the outcome of `fn`, or without one.
unfoldable pub settle {ℓ} :
    {A : Type ℓ}
    → Ticket
    → Readings
    → Outcome A
    → Outcome A
    → CircuitBreaker
    → CircuitBreaker × Outcome A
unfolding execute_closed finish_probe
settle closed_call r fn fallback b = execute_closed r fn b
settle probe_call r fn fallback b =
    finish_probe r fn fallback (record b { probe_in_flight = false })
settle turned_away r fn fallback b = (b, fallback)

-- Without a switch in between, the two halves are `execute`.
pub settle-admit {ℓ} :
    {A : Type ℓ} (r : Readings) (fn fallback : Outcome A) (b : CircuitBreaker)
    → let (b', t) = admit r b in settle t r fn fallback b' ≡ execute r fn fallback b
unfolding settle admit execute
settle-admit r (returned a) fallback b = ground arith
settle-admit r (raised e) fallback b = ground arith

-- What a caller has read when it has tested `_probe_in_flight`, and not written it yet.
look : CircuitBreaker → Ticket
look b = if b.probe_in_flight then turned_away else probe_call

glance_in : CircuitBreakerState → Readings → CircuitBreaker → CircuitBreaker × Ticket
unfolding look transition_to
glance_in closed r b = (b, closed_call)
glance_in opened r b =
    let b' = transition_to half_open r.at_half_open r.at_half_open b in
    if leb (b.opened_at + b.recovery_timeout_ms) r.at_entry then (b', look b') else (b, turned_away)
glance_in half_open r b = (b, look b)

unfoldable pub glance : Readings → CircuitBreaker → CircuitBreaker × Ticket
unfolding glance_in
glance r b = glance_in b.state r b

-- The write of a caller that is to be the probe.
unfoldable pub mark_probe : Ticket → CircuitBreaker → CircuitBreaker
mark_probe probe_call b = record b { probe_in_flight = true }
mark_probe closed_call b = b
mark_probe turned_away b = b

-- Without a switch in between, the test and the write are `admit`.
pub mark_probe-glance :
    (r : Readings) (b : CircuitBreaker)
    → let (b', t) = glance r b in (mark_probe t b', t) ≡ admit r b
unfolding mark_probe glance admit
mark_probe-glance r b = ground arith

-- The breaker, the number of callers that are to be probes and have not written the flag, and the
-- calls of `fn` that run at the moment.
pub record World : Type 0 where
  pub breaker : CircuitBreaker
  pub deciding : ℕ
  pub running : List Ticket

-- A caller that is turned away runs no `fn`.
abbrev start : Ticket → World → World
start turned_away w = w
start closed_call w = record w { running = closed_call ∷ w.running }
start probe_call w = record w { deciding = suc w.deciding }

pub data Step {ℓ} (A : Type ℓ) (w : World) : World → Type ℓ where
  enter :
      (r : Readings) {w' : World}
      → w' ≡ start (glance r w.breaker).1 (record w { breaker = (glance r w.breaker).0 })
      → Step A w w'
  mark :
      (n : ℕ) {w' : World}
      → w.deciding ≡ suc n
      → w' ≡ record {
        breaker = mark_probe probe_call w.breaker;
        deciding = n;
        running = probe_call ∷ w.running;
      }
      → Step A w w'
  leave :
      (r : Readings) (fn fallback : Outcome A) (xs : List Ticket) (t : Ticket) (ys : List Ticket)
      {w' : World}
      → w.running ≡ xs ++ (t ∷ ys)
      → w' ≡ record w { breaker = (settle t r fn fallback w.breaker).0; running = xs ++ ys }
      → Step A w w'

pub data Reach {ℓ} (A : Type ℓ) (w : World) : World → Type ℓ where
  here : Reach A w w
  next : {u v : World} → Reach A w u → Step A u v → Reach A w v

-- How many probes are running.
abbrev pub probes : List Ticket → ℕ
probes [] = 0
probes (probe_call ∷ ts) = suc (probes ts)
probes (closed_call ∷ ts) = probes ts
probes (turned_away ∷ ts) = probes ts

abbrev pub at_rest : CircuitBreaker → World
at_rest b = record { breaker = b; deciding = 0; running = [] }

glance-probe :
    (r : Readings) (b : CircuitBreaker)
    → b.state ≡ half_open
    → b.probe_in_flight ≡ false
    → glance r b ≡ (b, probe_call)
unfolding glance
glance-probe r b h f = rw (h, f) refl

-- Callers that find the flag clear, one after another.
enters {ℓ} :
    {A : Type ℓ} (r : Readings) (b : CircuitBreaker) (n : ℕ) {w : World}
    → b.state ≡ half_open
    → b.probe_in_flight ≡ false
    → Reach A w (record { breaker = b; deciding = 1; running = [] })
    → Reach A w (record { breaker = b; deciding = suc n; running = [] })
enters r b zero h f reach = reach
enters r b (suc n) h f reach = next (enters r b n h f reach) (
    enter r (
      ap
        (λ (g : CircuitBreaker × Ticket).
          start g.1 (record { breaker = g.0; deciding = suc n; running = [] }))
        (sym (glance-probe r b h f))))

-- They write it one after another.
marks {ℓ} :
    {A : Type ℓ} (n : ℕ) (b : CircuitBreaker) (ts : List Ticket) {w : World}
    → Reach A w (record { breaker = b; deciding = n; running = ts })
    → (v : World) × Reach A w v × (probes v.running ≡ n + probes ts)
marks zero b ts reach = (_, reach, omega arith)
marks (suc n) b ts reach =
    let (v, there, count) =
      marks n (mark_probe probe_call b) (probe_call ∷ ts) (next reach (mark n refl refl)) in
    (v, there, omega (arith, count))

open-glance :
    (r : Readings) (b : CircuitBreaker)
    → b.state ≡ opened
    → b.probe_in_flight ≡ false
    → b.opened_at + b.recovery_timeout_ms ≤ r.at_entry
    → let (b', t) = glance r b in
      (b'.state ≡ half_open) × (b'.probe_in_flight ≡ false) × (t ≡ probe_call)
unfolding glance
open-glance r b o f h = ground arith

-- Any number of probes can run at once: from an open breaker whose recovery time has passed, with no
-- probe in flight, the steps of n + 1 callers can be interleaved so that n + 1 probes run.
pub probes_race {ℓ} :
    {A : Type ℓ} (r : Readings) (b : CircuitBreaker) (n : ℕ)
    → b.state ≡ opened
    → b.probe_in_flight ≡ false
    → b.opened_at + b.recovery_timeout_ms ≤ r.at_entry
    → (w : World) × Reach A (at_rest b) w × (probes w.running ≡ suc n)
probes_race {A} r b n o f h =
    let (half, clear, is_probe) = open-glance r b o f h in
    let b' = (glance r b).0 in
    let first : Reach A (at_rest b) (record { breaker = b'; deciding = 1; running = [] }) =
      next here (
        enter r (
          ap (λ t. start t (record { breaker = b'; deciding = 0; running = [] }))
            (sym is_probe))) in
    let (w, reach, count) = marks (suc n) b' [] (enters r b' n half clear first) in
    (w, reach, omega (arith, count))
