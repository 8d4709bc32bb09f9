-- ===== src/Agents/StateMachine/Tests.antt =====
-- Runs of the agent state machine, and the theorems about it at inputs that meet their hypotheses.
use clartt_capital.Common.{◌≡◌, refl, true, false, some, none, List, [], ◌∷◌, length}
use clartt_capital.Agents.Models.{
  AgentStateRecord, planning, executing, reviewing, completed, paused,
}
use clartt_capital.Agents.StateMachine.{
  AgentStateMachine, Moment, Call, cap_history, to, pausing, resuming, init, pause, resume, put,
  get, post, persist, call, run,
}
use clartt_capital.Agents.StateMachine.Paused.{pause-resume}

abbrev moment : Moment
moment = record { entered = 10; stamped = 11 }

abbrev machine : AgentStateMachine
machine = record {
  agent_name = "research";
  backend_url = "http://backend:3000";
  state = executing;
  state_entered_at = 5;
  history = [];
  pre_pause_state = none;
  failure_reason = none;
  failure_stack_trace = none;
  failure_task_id = none;
  error_count = 2;
  current_task_id = none;
}

abbrev work : List (Call × Moment)
work =
    (to planning none, moment)
    ∷ (to executing none, moment)
    ∷ (pausing, moment)
    ∷ (to completed none, moment)
    ∷ (resuming, moment)
    ∷ (to reviewing none, moment)
    ∷ (to completed none, moment)
    ∷ []

-- Completing while paused is refused; the rest goes through.
work_completes :
    let m = run work (init "research" "http://backend:3000" 0) in
    (m.state ≡ completed) × (length m.history ≡ 6)
unfolding run call init cap_history
work_completes = (refl, refl)

persist_known : persist (some 200) true ≡ get ∷ put ∷ []
unfolding persist
persist_known = refl

persist_lost : persist (some 404) false ≡ get ∷ post ∷ post ∷ []
unfolding persist
persist_lost = refl

pause-resume_example :
    let (p, e) = pause moment machine in
    let (r, f) = resume moment p in
    (e ≡ none)
    × (p.state ≡ paused)
    × (f ≡ none)
    × (r.state ≡ executing)
    × (r.pre_pause_state ≡ none)
pause-resume_example = pause-resume moment moment machine refl

abbrev halted : AgentStateMachine
halted = record machine { state = paused; pre_pause_state = some executing }

abbrev saved : AgentStateRecord
saved = record {
  agent_name = "research";
  current_state = executing;
  state_history = [];
  last_heartbeat = none;
  current_task_id = some "t1";
  error_count = 3;
  failure_reason = none;
  failure_stack_trace = none;
}
