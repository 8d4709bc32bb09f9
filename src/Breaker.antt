-- ===== src/Breaker.antt =====
-- packages/*/src/circuit_breaker/circuit_breaker.py (the two engines hold the same file): the
-- breaker's fields, its handlers and `execute`. Clock readings are whole milliseconds; each call
-- of `time.time()` is a reading of its own. What `fn` and `fallback` do is an `Outcome`.
pub mod Trip
pub mod Edges
pub mod Concurrent
mod Tests
use clartt_capital.Common.{
  ℕ, ◌+◌, Bool, true, false, Option, none, some, ◌≡◌, refl, ◌⊎◌, inl, inr, List, [], ◌∷◌, ◌++◌,
  String, leb, if◌then◌else◌,
}

pub data CircuitBreakerState : Type 0 where
  closed opened half_open : CircuitBreakerState

abbrev pub state_eq : CircuitBreakerState → CircuitBreakerState → Bool
state_eq closed closed = true
state_eq opened opened = true
state_eq half_open half_open = true
state_eq _ _ = false

-- The object. `notified` lists the calls made of `on_state_change`, the latest last.
pub record CircuitBreaker : Type 0 where
  pub name : String
  pub on_state_change : Bool
  pub failure_threshold : ℕ
  pub recovery_timeout_ms : ℕ
  pub probe_interval_ms : ℕ
  pub state : CircuitBreakerState
  pub failure_count : ℕ
  pub last_state_change_time : ℕ
  pub last_success_time : ℕ
  pub opened_at : ℕ
  pub probe_in_flight : Bool
  pub notified : List (CircuitBreakerState × CircuitBreakerState)

-- An argument, else the environment's variable (read by `int`), else the default.
pub setting : Option ℕ → Option ℕ → ℕ → ℕ
setting (some given) _ default = given
setting none (some env) default = env
setting none none default = default

-- The arguments of the constructor and the three environment variables.
pub record Settings : Type 0 where
  pub failure_threshold : Option ℕ
  pub recovery_timeout_ms : Option ℕ
  pub probe_interval_ms : Option ℕ
  pub env_threshold : Option ℕ
  pub env_recovery : Option ℕ
  pub env_probe : Option ℕ

unfoldable pub init : String → Settings → Bool → ℕ → ℕ → CircuitBreaker
unfolding setting
init name s on_state_change changed succeeded = record {
  name = name;
  on_state_change = on_state_change;
  failure_threshold = setting s.failure_threshold s.env_threshold 5;
  recovery_timeout_ms = setting s.recovery_timeout_ms s.env_recovery 30000;
  probe_interval_ms = setting s.probe_interval_ms s.env_probe 10000;
  state = closed;
  failure_count = 0;
  last_state_change_time = changed;
  last_success_time = succeeded;
  opened_at = 0;
  probe_in_flight = false;
  notified = [];
}

-- The readings of the clock in one call of `execute`, one for each place that reads it.
pub record Readings : Type 0 where
  pub at_entry : ℕ
  pub at_half_open : ℕ
  pub at_success : ℕ
  pub at_change : ℕ
  pub at_open : ℕ

-- What a call of `fn` or `fallback` does: return a value, or raise an exception.
pub data Outcome {ℓ} (A : Type ℓ) : Type ℓ where
  returned : A → Outcome A
  raised : String → Outcome A

pub Outcome-cases {ℓ} :
    {A : Type ℓ} (o : Outcome A) → ((a : A) × (o ≡ returned a)) ⊎ ((e : String) × (o ≡ raised e))
Outcome-cases (returned a) = inl (a, refl)
Outcome-cases (raised e) = inr (e, refl)

-- `_transition_to`. A callback that raises is caught there, so a call of it is just recorded.
pub transition_to : CircuitBreakerState → ℕ → ℕ → CircuitBreaker → CircuitBreaker
transition_to new changed at_open b = if state_eq b.state new then b else record b {
  state = new;
  last_state_change_time = changed;
  opened_at = if state_eq new opened then at_open else b.opened_at;
  notified = if b.on_state_change then b.notified ++ ((b.state, new) ∷ []) else b.notified;
}

pub on_success : Readings → CircuitBreaker → CircuitBreaker
on_success r b = record b { failure_count = 0; last_success_time = r.at_success }

pub on_failure : Readings → CircuitBreaker → CircuitBreaker
unfolding transition_to
on_failure r b =
    let c = record b { failure_count = b.failure_count + 1 } in
    if leb c.failure_threshold c.failure_count
    then transition_to opened r.at_change r.at_open c
    else c

pub on_probe_success : Readings → CircuitBreaker → CircuitBreaker
unfolding transition_to
on_probe_success r b =
    transition_to closed r.at_change r.at_open
      (record b { failure_count = 0; last_success_time = r.at_success })

pub on_probe_failure : Readings → CircuitBreaker → CircuitBreaker
unfolding transition_to
on_probe_failure r b = transition_to opened r.at_change r.at_open b

module _ {ℓ} {A : Type ℓ} (r : Readings) where
  pub execute_closed : Outcome A → CircuitBreaker → CircuitBreaker × Outcome A
  unfolding on_success on_failure
  execute_closed (returned a) b = (on_success r b, returned a)
  execute_closed (raised e) b = (on_failure r b, raised e)

  -- The end of a probe, after the flag is cleared.
  pub finish_probe : Outcome A → Outcome A → CircuitBreaker → CircuitBreaker × Outcome A
  unfolding on_probe_success on_probe_failure
  finish_probe (returned a) fallback b = (on_probe_success r b, returned a)
  finish_probe (raised e) fallback b = (on_probe_failure r b, fallback)

  pub execute_half_open : Outcome A → Outcome A → CircuitBreaker → CircuitBreaker × Outcome A
  unfolding finish_probe
  execute_half_open fn fallback b =
      if b.probe_in_flight
      then (b, fallback)
      else let probing = record b { probe_in_flight = true } in
        finish_probe fn fallback (record probing { probe_in_flight = false })

  -- `(now - opened_at) * 1000 >= recovery_timeout_ms`, without a subtraction.
  pub execute_open : Outcome A → Outcome A → CircuitBreaker → CircuitBreaker × Outcome A
  unfolding transition_to execute_half_open
  execute_open fn fallback b =
      if leb (b.opened_at + b.recovery_timeout_ms) r.at_entry
      then execute_half_open fn fallback (transition_to half_open r.at_half_open r.at_half_open b)
      else (b, fallback)

  dispatch :
      CircuitBreakerState → Outcome A → Outcome A → CircuitBreaker → CircuitBreaker × Outcome A
  unfolding execute_closed execute_open execute_half_open
  dispatch closed fn fallback b = execute_closed fn b
  dispatch opened fn fallback b = execute_open fn fallback b
  dispatch half_open fn fallback b = execute_half_open fn fallback b

  -- `execute`, when `fn` would end with the first outcome and `fallback` with the second.
  unfoldable pub execute : Outcome A → Outcome A → CircuitBreaker → CircuitBreaker × Outcome A
  unfolding dispatch
  execute fn fallback b = dispatch b.state fn fallback b

-- One call: what `fn` and `fallback` would do, and the clock.
pub record Attempt {ℓ} (A : Type ℓ) : Type ℓ where
  pub fn : Outcome A
  pub fallback : Outcome A
  pub clock : Readings

-- Calls one after another, and what each returned or raised.
unfoldable pub run {ℓ} :
    {A : Type ℓ} → List (Attempt A) → CircuitBreaker → CircuitBreaker × List (Outcome A)
run [] b = (b, [])
run (c ∷ cs) b =
    let (b', o) = execute c.clock c.fn c.fallback b in let (b'', os) = run cs b' in (b'', o ∷ os)
