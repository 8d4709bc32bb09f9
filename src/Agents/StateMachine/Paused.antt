-- ===== src/Agents/StateMachine/Paused.antt =====
-- What pausing keeps, and when it cannot be undone. (state_machine.py, `pause`, `resume`,
-- `transition`, `restore`)
use clartt_capital.Common.{
  ℕ, ◌≡◌, ◌⊎◌, inl, inr, refl, true, false, none, Option, List, [], ◌∷◌, String, arith,
}
use clartt_capital.Agents.Models.{AgentStateRecord, planning, executing, paused}
use clartt_capital.Agents.StateMachine.{
  AgentStateMachine, Moment, Call, contains, pausable_states, init, transition, pause, resume,
  state_record, restore, found, call, run,
}

-- A machine that can be paused pauses, and resuming it brings the state back and clears the
-- stored one; neither call raises.
pub pause-resume :
    (t u : Moment) (m : AgentStateMachine)
    → contains m.state pausable_states ≡ true
    → let (p, e) = pause t m in
      let (r, f) = resume u p in
      (e ≡ none)
      × (p.state ≡ paused)
      × (f ≡ none)
      × (r.state ≡ m.state)
      × (r.pre_pause_state ≡ none)
unfolding pause resume
pause-resume t u m h = rw h (refl, refl, refl, refl, refl)

-- Paused, with no state to go back to.
pub record IsStuck (m : AgentStateMachine) : Type 0 where
  pub is_paused : m.state ≡ paused
  pub no_return : m.pre_pause_state ≡ none

call-IsStuck : (c : Call) (t : Moment) (m : AgentStateMachine) → IsStuck m → IsStuck (call c t m).0
unfolding call
call-IsStuck c t m h = ground arith

-- A machine that is paused with no stored state stays paused under every sequence of calls.
pub run-IsStuck :
    (cs : List (Call × Moment)) (m : AgentStateMachine) → IsStuck m → IsStuck (run cs m)
unfolding run
run-IsStuck [] m h = h
run-IsStuck ((c, t) ∷ cs) m h = run-IsStuck cs (call c t m).0 (call-IsStuck c t m h)

transition-paused :
    (reason : Option String) (t : Moment) (m : AgentStateMachine)
    → contains m.state pausable_states ≡ true
    → m.pre_pause_state ≡ none
    → ((transition paused reason t m).1 ≡ none) × IsStuck (transition paused reason t m).0
unfolding transition
transition-paused reason t m h n = ground arith

-- `transition` to PAUSED, which the table allows from every state that can be paused, is accepted
-- where no state is stored, and then no sequence of calls leads out of PAUSED.
pub transition-paused_stuck :
    (reason : Option String) (t : Moment) (m : AgentStateMachine) (cs : List (Call × Moment))
    → contains m.state pausable_states ≡ true
    → m.pre_pause_state ≡ none
    → let (p, e) = transition paused reason t m in (e ≡ none) × ((run cs p).state ≡ paused)
transition-paused_stuck reason t m cs h n =
    let (accepted, stuck) = transition-paused reason t m h n in
    (accepted, (run-IsStuck cs (transition paused reason t m).0 stuck).is_paused)

restore-paused :
    (m : AgentStateMachine) (name url : String) (now : ℕ) (t : Moment)
    → m.state ≡ paused
    → IsStuck (restore (found (state_record m)) t (init name url now)).0
unfolding restore init state_record
restore-paused m name url now t h = ground arith

-- A machine that is paused and persisted, and whose record a new machine restores, is paused and
-- no sequence of calls leads it out of PAUSED.
pub restore-paused_stuck :
    (m : AgentStateMachine) (name url : String) (now : ℕ) (t : Moment) (cs : List (Call × Moment))
    → m.state ≡ paused
    → (run cs (restore (found (state_record m)) t (init name url now)).0).state ≡ paused
restore-paused_stuck m name url now t cs h =
    (run-IsStuck cs _ (restore-paused m name url now t h)).is_paused

-- A record of an agent that was planning or executing is restored as paused, and `resume` then
-- brings that state back. The history restored is the record's, and its error count is kept.
pub restore-resume :
    (r : AgentStateRecord) (t u : Moment) (m : AgentStateMachine)
    → (r.current_state ≡ planning) ⊎ (r.current_state ≡ executing)
    → let (p, raised) = restore (found r) t m in
      let (q, e) = resume u p in
      (raised ≡ false)
      × (p.state ≡ paused)
      × (p.history ≡ r.state_history)
      × (e ≡ none)
      × (q.state ≡ r.current_state)
      × (q.pre_pause_state ≡ none)
      × (q.error_count ≡ r.error_count)
unfolding restore resume
restore-resume r t u m (inl h) = rw h (refl, refl, refl, refl, refl, refl, refl)
restore-resume r t u m (inr h) = rw h (refl, refl, refl, refl, refl, refl, refl)
