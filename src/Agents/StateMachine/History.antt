-- ===== src/Agents/StateMachine/History.antt =====
-- The history of a state machine: bounded, and a record of how the state came about.
-- (state_machine.py, `transition`, `pause`, `resume`, `reset`)
use clartt_capital.Common.{
  ℕ, zero, suc, ◌+◌, ◌-◌, ◌≤◌, ◌≡◌, ◌⊎◌, inl, inr, refl, true, none, some, Option, String, List, [],
  ◌∷◌, ◌++◌, String, Bool-cases, ltb, length, drop, length-append, length-drop, arith, All,
}
use clartt_capital.Agents.Models.{AgentState, StateTransition, idle, failed, paused, state_eq}
use clartt_capital.Agents.StateMachine.{
  AgentStateMachine, Moment, Call, contains, valid_transitions, pausable_states, max_history,
  Raises, init, clear_failure, cap_history, enter, resume_to, transition, pause, reset, to, pausing,
  resuming, resetting, failing, call, run,
}

length-cap_history :
    (h : List StateTransition) → length h ≤ max_history + 1 → length (cap_history h) ≤ max_history
unfolding cap_history
length-cap_history h b = ground (arith, length-drop (length h - max_history) h)

-- Each entry begins in the state in which the one before it ended, and the last one ended in `s`.
abbrev pub Linked : List StateTransition → AgentState → Type 0
Linked [] s = Unit
Linked (x ∷ []) s = x.to_state ≡ s
Linked (x ∷ y ∷ h) s = (x.to_state ≡ y.from_state) × Linked (y ∷ h) s

Linked-drop : (n : ℕ) (h : List StateTransition) (s : AgentState) → Linked h s → Linked (drop n h) s
Linked-drop zero h s l = l
Linked-drop (suc n) [] s l = l
Linked-drop (suc n) (x ∷ []) s l = Linked-drop n [] s tt
Linked-drop (suc n) (x ∷ y ∷ h) s l = Linked-drop n (y ∷ h) s l.1

Linked-append :
    (h : List StateTransition) (x : StateTransition)
    → Linked h x.from_state
    → Linked (h ++ (x ∷ [])) x.to_state
Linked-append [] x l = refl
Linked-append (y ∷ []) x l = (l, refl)
Linked-append (y ∷ z ∷ h) x l = (l.0, Linked-append (z ∷ h) x l.1)

Linked-cap_history :
    (h : List StateTransition) (s : AgentState) → Linked h s → Linked (cap_history h) s
unfolding cap_history
Linked-cap_history h s l = elim (Bool-cases (ltb max_history (length h))) [
  | inl long ↦ rw long (Linked-drop (length h - max_history) h s l)
  | inr short ↦ rw short l
]

-- A change that the table allows, the pause of an active state, or the return to one.
abbrev pub Allowed : StateTransition → Type 0
Allowed x =
    (contains x.to_state (valid_transitions x.from_state) ≡ true)
    ⊎ ((x.from_state ≡ paused) × (contains x.to_state pausable_states ≡ true))

All-drop : (n : ℕ) (h : List StateTransition) → All Allowed h → All Allowed (drop n h)
All-drop zero h a = a
All-drop (suc n) [] a = a
All-drop (suc n) (x ∷ h) a = All-drop n h a.1

All-append :
    (h : List StateTransition) (x : StateTransition)
    → All Allowed h
    → Allowed x
    → All Allowed (h ++ (x ∷ []))
All-append [] x a b = (b, tt)
All-append (y ∷ h) x a b = (a.0, All-append h x a.1 b)

All-cap_history : (h : List StateTransition) → All Allowed h → All Allowed (cap_history h)
unfolding cap_history
All-cap_history h a = elim (Bool-cases (ltb max_history (length h))) [
  | inl long ↦ rw long (All-drop (length h - max_history) h a)
  | inr short ↦ rw short a
]

-- What holds of a machine between two calls. A stored state can be paused, so it is active.
pub record IsValid (m : AgentStateMachine) : Type 0 where
  pub bounded : length m.history ≤ max_history
  pub linked : Linked m.history m.state
  pub allowed : All Allowed m.history
  pub resumable : (s : AgentState) → m.pre_pause_state ≡ some s → contains s pausable_states ≡ true

enter-IsValid :
    (target : AgentState) (reason : Option String) (t : Moment) (m : AgentStateMachine)
    → IsValid m
    → Allowed
        (record { from_state = m.state; to_state = target; timestamp = t.stamped; reason = reason })
    → IsValid (enter target reason t m)
unfolding enter
enter-IsValid target reason t m v a =
    let x : StateTransition = record {
      from_state = m.state;
      to_state = target;
      timestamp = t.stamped;
      reason = reason;
    } in
    record {
      bounded = length-cap_history _ (omega (arith, length-append m.history (x ∷ []), v.bounded));
      linked = Linked-cap_history _ target (Linked-append m.history x v.linked);
      allowed = All-cap_history _ (All-append m.history x v.allowed a);
      resumable = v.resumable;
    }

transition-IsValid :
    (target : AgentState) (reason : Option String) (t : Moment) (m : AgentStateMachine)
    → IsValid m
    → IsValid (transition target reason t m).0
unfolding transition
transition-IsValid target reason t m v =
    elim (Bool-cases (contains target (valid_transitions m.state))) [
      | inl ok ↦ rw ok (enter-IsValid target reason t m v (inl ok))
      | inr refused ↦ rw refused v
    ]

pausable-allowed :
    (s : AgentState)
    → contains s pausable_states ≡ true
    → contains paused (valid_transitions s) ≡ true
pausable-allowed s h = ground arith

pause-IsValid : (t : Moment) (m : AgentStateMachine) → IsValid m → IsValid (pause t m).0
unfolding pause
pause-IsValid t m v = elim (Bool-cases (contains m.state pausable_states)) [
  | inl ok ↦ rw ok (
      enter-IsValid paused (some "paused") t (record m { pre_pause_state = some m.state })
        (record {
          bounded = v.bounded;
          linked = v.linked;
          allowed = v.allowed;
          resumable = λ s e. ground arith;
        })
        (inl (pausable-allowed m.state ok)))
  | inr refused ↦ rw refused v
]

state_eq-paused : (s : AgentState) → state_eq s paused ≡ true → s ≡ paused
state_eq-paused s h = ground arith

resume_to-IsValid :
    (p : Option AgentState) (t : Moment) (m : AgentStateMachine)
    → m.pre_pause_state ≡ p
    → IsValid m
    → IsValid (resume_to p t m).0
unfolding resume_to
resume_to-IsValid none t m e v = v
resume_to-IsValid (some s) t m e v = elim (Bool-cases (state_eq m.state paused)) [
  | inl ok ↦ rw ok (
      let w =
        enter-IsValid s (some "resumed") t m v
          (inr (state_eq-paused m.state ok, v.resumable s e)) in
      record { bounded = w.bounded; linked = w.linked; allowed = w.allowed; resumable = λ x q. cc })
  | inr refused ↦ rw refused v
]

clear_failure-IsValid : (r : Raises) → IsValid r.0 → IsValid (clear_failure r).0
unfolding clear_failure
clear_failure-IsValid (m, some e) v = v
clear_failure-IsValid (m, none) v = record {
  bounded = v.bounded;
  linked = v.linked;
  allowed = v.allowed;
  resumable = v.resumable;
}

reset-IsValid : (t : Moment) (m : AgentStateMachine) → IsValid m → IsValid (reset t m).0
unfolding reset
reset-IsValid t m v = elim (Bool-cases (state_eq m.state failed)) [
  | inl ok ↦ rw ok (
      clear_failure-IsValid (transition idle (some "reset") t m)
        (transition-IsValid idle (some "reset") t m v))
  | inr refused ↦ rw refused v
]

pub call-IsValid :
    (c : Call) (t : Moment) (m : AgentStateMachine) → IsValid m → IsValid (call c t m).0
unfolding call
call-IsValid (to target reason) t m v = transition-IsValid target reason t m v
call-IsValid pausing t m v = pause-IsValid t m v
call-IsValid resuming t m v = resume_to-IsValid m.pre_pause_state t m refl v
call-IsValid resetting t m v = reset-IsValid t m v
call-IsValid (failing reason trace task) t m v = record {
  bounded = v.bounded;
  linked = v.linked;
  allowed = v.allowed;
  resumable = v.resumable;
}

run-IsValid : (cs : List (Call × Moment)) (m : AgentStateMachine) → IsValid m → IsValid (run cs m)
unfolding run
run-IsValid [] m v = v
run-IsValid ((c, t) ∷ cs) m v = run-IsValid cs (call c t m).0 (call-IsValid c t m v)

-- After any calls on a new machine its history has at most 100 entries, each begins where the one
-- before it ended, the last ends in the current state, every entry is a change of the table or a
-- return from PAUSED to an active state, and a stored state is an active one.
pub history_of_calls :
    (cs : List (Call × Moment)) (name url : String) (now : ℕ) → IsValid (run cs (init name url now))
unfolding init
history_of_calls cs name url now =
    run-IsValid cs (init name url now)
      (record { bounded = omega arith; linked = tt; allowed = tt; resumable = λ s e. cc })
