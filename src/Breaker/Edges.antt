-- ===== src/Breaker/Edges.antt =====
-- The state changes that the callback of a breaker is told of. (circuit_breaker.py,
-- `_transition_to` and `execute`)
use clartt_capital.Common.{
  ℕ, ◌≡◌, refl, List, [], ◌∷◌, ◌++◌, true, append_assoc, append-nil, false, ◌+◌, Bool-cases, inl,
  inr, leb, sym, subst, ap, ◌∙◌,
}
use clartt_capital.Breaker.{
  CircuitBreakerState, CircuitBreaker, state_eq, on_failure, finish_probe, execute_half_open,
  execute_open, dispatch, returned, raised, Attempt, Outcome, Readings, closed, opened, half_open,
  transition_to, execute, run,
}

-- The four changes of the state diagram.
pub data IsEdge : CircuitBreakerState → CircuitBreakerState → Type 0 where
  trip : IsEdge closed opened
  recover : IsEdge opened half_open
  probe_ok : IsEdge half_open closed
  probe_failed : IsEdge half_open opened

-- A list of changes that lead from one state to another, each starting where the last one ended.
abbrev pub Chain :
    CircuitBreakerState
    → List (CircuitBreakerState × CircuitBreakerState)
    → CircuitBreakerState
    → Type 0
Chain s [] t = s ≡ t
Chain s ((a, b) ∷ es) t = (s ≡ a) × IsEdge a b × Chain b es t

Chain-append :
    (s t u : CircuitBreakerState) (xs ys : List (CircuitBreakerState × CircuitBreakerState))
    → Chain s xs t
    → Chain t ys u
    → Chain s (xs ++ ys) u
Chain-append s t u [] ys p q = subst (λ x. Chain x ys u) (sym p) q
Chain-append s t u ((a, b) ∷ xs) ys (p, e, c) q = (p, e, Chain-append b t u xs ys c q)

-- What a breaker tells its callback on the way from `b` to `b'`.
abbrev pub Tells : CircuitBreaker → CircuitBreaker → Type 0
Tells b b' =
    (es : List (CircuitBreakerState × CircuitBreakerState)) × (b'.notified ≡ b.notified ++ es)
    × (b'.on_state_change ≡ true)
    × Chain b.state es b'.state

Tells-same :
    (b b' : CircuitBreaker)
    → b.on_state_change ≡ true
    → b'.notified ≡ b.notified
    → b'.on_state_change ≡ b.on_state_change
    → b'.state ≡ b.state
    → Tells b b'
Tells-same b b' h n o s = ([], n ∙ sym (append-nil b.notified), o ∙ h, sym s)

Tells-trans : (b c d : CircuitBreaker) → Tells b c → Tells c d → Tells b d
Tells-trans b c d (es, n, o, p) (fs, m, q, r) = (
  es ++ fs,
  m ∙ ap (λ l. l ++ fs) n ∙ append_assoc b.notified es fs,
  q,
  Chain-append b.state c.state d.state es fs p r,
)

IsEdge-moves : {s t : CircuitBreakerState} → IsEdge s t → state_eq s t ≡ false
IsEdge-moves trip = refl
IsEdge-moves recover = refl
IsEdge-moves probe_ok = refl
IsEdge-moves probe_failed = refl

transition_to-Tells :
    (changed at_open : ℕ) {s : CircuitBreakerState} (t : CircuitBreakerState) (b : CircuitBreaker)
    → b.on_state_change ≡ true
    → b.state ≡ s
    → IsEdge s t
    → Tells b (transition_to t changed at_open b)
unfolding transition_to
transition_to-Tells c o t b h p e =
    let edge = subst (λ x. IsEdge x t) (sym p) e in
    let moves = IsEdge-moves edge in
    ((b.state, t) ∷ [], rw (moves, h), rw (moves, h), (refl, edge, rw moves))

on_failure-Tells :
    (r : Readings) (b : CircuitBreaker)
    → b.on_state_change ≡ true
    → b.state ≡ closed
    → Tells b (on_failure r b)
unfolding on_failure
on_failure-Tells r b h p =
    let c = record b { failure_count = b.failure_count + 1 } in
    elim (Bool-cases (leb b.failure_threshold (b.failure_count + 1))) [
      | inl reached ↦ rw reached (transition_to-Tells r.at_change r.at_open opened c h p trip)
      | inr below ↦ rw below (Tells-same b c h refl refl refl)
    ]

module _ {ℓ} {A : Type ℓ} (r : Readings) where
  finish_probe-Tells :
      (fn fb : Outcome A) (b : CircuitBreaker)
      → b.on_state_change ≡ true
      → b.state ≡ half_open
      → Tells b (finish_probe r fn fb b).0
  unfolding finish_probe
  finish_probe-Tells (returned a) fb b h p =
      transition_to-Tells r.at_change r.at_open closed
        (record b { failure_count = 0; last_success_time = r.at_success }) h p probe_ok
  finish_probe-Tells (raised e) fb b h p =
      transition_to-Tells r.at_change r.at_open opened b h p probe_failed

  execute_half_open-Tells :
      (fn fb : Outcome A) (b : CircuitBreaker)
      → b.on_state_change ≡ true
      → b.state ≡ half_open
      → Tells b (execute_half_open r fn fb b).0
  unfolding execute_half_open
  execute_half_open-Tells fn fb b h p = elim (Bool-cases b.probe_in_flight) [
    | inl busy ↦ rw busy (Tells-same b b h refl refl refl)
    | inr free ↦ rw free (finish_probe-Tells fn fb (record b { probe_in_flight = false }) h p)
  ]

  execute_open-Tells :
      (fn fb : Outcome A) (b : CircuitBreaker)
      → b.on_state_change ≡ true
      → b.state ≡ opened
      → Tells b (execute_open r fn fb b).0
  unfolding execute_open transition_to
  execute_open-Tells fn fb b h p =
      let c = transition_to half_open r.at_half_open r.at_half_open b in
      let told = transition_to-Tells r.at_half_open r.at_half_open half_open b h p recover in
      elim (Bool-cases (leb (b.opened_at + b.recovery_timeout_ms) r.at_entry)) [
        | inl late ↦ rw late (
            Tells-trans b c (execute_half_open r fn fb c).0 told
              (execute_half_open-Tells fn fb c told.2 (rw p)))
        | inr early ↦ rw early (Tells-same b b h refl refl refl)
      ]

  dispatch-Tells :
      (s : CircuitBreakerState) (fn fb : Outcome A) (b : CircuitBreaker)
      → b.on_state_change ≡ true
      → b.state ≡ s
      → Tells b (dispatch r s fn fb b).0
  unfolding dispatch
  dispatch-Tells closed (returned a) fb b h p =
      Tells-same b (record b { failure_count = 0; last_success_time = r.at_success }) h refl refl
        refl
  dispatch-Tells closed (raised e) fb b h p = on_failure-Tells r b h p
  dispatch-Tells opened fn fb b h p = execute_open-Tells fn fb b h p
  dispatch-Tells half_open fn fb b h p = execute_half_open-Tells fn fb b h p

module _ {ℓ} {A : Type ℓ} where
  -- Over any calls made one after another, a breaker with a callback tells it of a chain of
  -- changes that leads from the state before the first call to the state after the last, and
  -- every change is one of closed to open, open to half-open, and half-open to closed or to open.
  pub run-Tells :
      (cs : List (Attempt A)) (b : CircuitBreaker) → b.on_state_change ≡ true → Tells b (run cs b).0
  unfolding run execute
  run-Tells [] b h = Tells-same b b h refl refl refl
  run-Tells (c ∷ cs) b h =
      let told = dispatch-Tells c.clock b.state c.fn c.fallback b h refl in
      let b' = (execute c.clock c.fn c.fallback b).0 in
      Tells-trans b b' (run cs b').0 told (run-Tells cs b' told.2)
