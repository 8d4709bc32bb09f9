-- ===== src/Agents/StateMachine.antt =====
-- packages/strategy-engine/src/agents/state_machine.py: `AgentStateMachine`. A method that raises
-- `InvalidTransitionError` returns it beside the machine. Each `datetime.now` is a reading of its
-- own; the backend's answers are arguments.
pub mod Paused
pub mod History
pub mod Progress
mod Tests
use clartt_capital.Common.{
  ℕ, suc, ◌+◌, ◌-◌, Bool, true, false, Option, none, some, List, [], ◌∷◌, ◌++◌, String, ◌==◌, ltb,
  ◌||◌, ◌&&◌, not, length, drop, if◌then◌else◌,
}
use clartt_capital.Agents.Models.{
  AgentState, idle, planning, executing, waiting_for_input, reviewing, completed, failed, paused,
  state_eq, StateTransition, AgentStateRecord,
}

abbrev pub contains : AgentState → List AgentState → Bool
contains s [] = false
contains s (t ∷ ts) = state_eq s t || contains s ts

-- `VALID_TRANSITIONS`
abbrev pub valid_transitions : AgentState → List AgentState
valid_transitions idle = planning ∷ []
valid_transitions planning = executing ∷ waiting_for_input ∷ paused ∷ idle ∷ []
valid_transitions executing = reviewing ∷ failed ∷ waiting_for_input ∷ paused ∷ idle ∷ []
valid_transitions waiting_for_input = executing ∷ reviewing ∷ paused ∷ idle ∷ []
valid_transitions reviewing = completed ∷ planning ∷ failed ∷ paused ∷ idle ∷ []
valid_transitions completed = idle ∷ []
valid_transitions failed = idle ∷ []
valid_transitions paused = []

abbrev pub max_history : ℕ
max_history = 100

-- `_PAUSABLE_STATES`
abbrev pub pausable_states : List AgentState
pausable_states = planning ∷ executing ∷ waiting_for_input ∷ reviewing ∷ []

pub record InvalidTransitionError : Type 0 where
  pub agent_name : String
  pub current : AgentState
  pub target : AgentState

pub record AgentStateMachine : Type 0 where
  pub agent_name : String
  pub backend_url : String
  pub state : AgentState
  pub state_entered_at : ℕ
  pub history : List StateTransition
  pub pre_pause_state : Option AgentState
  pub failure_reason : Option String
  pub failure_stack_trace : Option String
  pub failure_task_id : Option String
  pub error_count : ℕ
  pub current_task_id : Option String

-- The URL is given with its trailing slashes already stripped.
unfoldable pub init : String → String → ℕ → AgentStateMachine
init agent_name backend_url now = record {
  agent_name = agent_name;
  backend_url = backend_url;
  state = idle;
  state_entered_at = now;
  history = [];
  pre_pause_state = none;
  failure_reason = none;
  failure_stack_trace = none;
  failure_task_id = none;
  error_count = 0;
  current_task_id = none;
}

abbrev pub Raises : Type 0
Raises = AgentStateMachine × Option InvalidTransitionError

pub invalid : AgentStateMachine → AgentState → Raises
invalid m target =
    (m, some (record { agent_name = m.agent_name; current = m.state; target = target }))

-- `history[-MAX_HISTORY:]` where it has grown too long.
pub cap_history : List StateTransition → List StateTransition
cap_history h = if ltb max_history (length h) then drop (length h - max_history) h else h

-- The two readings of the clock in one change of state.
pub record Moment : Type 0 where
  pub entered : ℕ
  pub stamped : ℕ

-- The new state, its time of entry and its record at the end of the history.
pub enter : AgentState → Option String → Moment → AgentStateMachine → AgentStateMachine
enter target reason t m = record m {
  state = target;
  state_entered_at = t.entered;
  history = cap_history (
      m.history
      ++ (record { from_state = m.state; to_state = target; timestamp = t.stamped; reason = reason }
          ∷ []));
}

unfoldable pub transition : AgentState → Option String → Moment → AgentStateMachine → Raises
unfolding invalid enter
transition target reason t m =
    if contains target (valid_transitions m.state)
    then (enter target reason t m, none)
    else invalid m target

unfoldable pub pause : Moment → AgentStateMachine → Raises
unfolding invalid enter
pause t m =
    if contains m.state pausable_states
    then (enter paused (some "paused") t (record m { pre_pause_state = some m.state }), none)
    else invalid m paused

resume_to : Option AgentState → Moment → AgentStateMachine → Raises
unfolding invalid enter
resume_to none t m = invalid m idle
resume_to (some target) t m =
    if state_eq m.state paused
    then (record (enter target (some "resumed") t m) { pre_pause_state = none }, none)
    else invalid m target

unfoldable pub resume : Moment → AgentStateMachine → Raises
unfolding resume_to
resume t m = resume_to m.pre_pause_state t m

clear_failure : Raises → Raises
clear_failure (m, some e) = (m, some e)
clear_failure (m, none) =
    (record m { failure_reason = none; failure_stack_trace = none; failure_task_id = none }, none)

unfoldable pub reset : Moment → AgentStateMachine → Raises
unfolding invalid transition clear_failure
reset t m =
    if state_eq m.state failed
    then clear_failure (transition idle (some "reset") t m)
    else invalid m idle

unfoldable pub record_failure : String → String → String → AgentStateMachine → AgentStateMachine
record_failure reason trace task m = record m {
  failure_reason = some reason;
  failure_stack_trace = some trace;
  failure_task_id = some task;
  error_count = m.error_count + 1;
}

-- The record that `persist` sends.
unfoldable pub state_record : AgentStateMachine → AgentStateRecord
state_record m = record {
  agent_name = m.agent_name;
  current_state = m.state;
  state_history = m.history;
  last_heartbeat = none;
  current_task_id = m.current_task_id;
  error_count = m.error_count;
  failure_reason = m.failure_reason;
  failure_stack_trace = m.failure_stack_trace;
}

pub data Request : Type 0 where
  get put post : Request

-- The requests that `persist` makes, given the status of the GET (none if it raises) and whether
-- the PUT or POST after it goes through. A request that raises leads to one more POST.
unfoldable pub persist : Option ℕ → Bool → List Request
persist none through = get ∷ post ∷ []
persist (some status) through =
    let first = if status == 200 then put else post in
    get ∷ first ∷ (if through then [] else post ∷ [])

-- What the GET of `restore` yields: an exception of `requests`, another status than 200, a body
-- that the model refuses, or a record.
pub data Answer : Type 0 where
  unreachable refused malformed : Answer
  found : AgentStateRecord → Answer

load_record : AgentStateRecord → ℕ → AgentStateMachine → AgentStateMachine
load_record r now m = record m {
  state = r.current_state;
  history = r.state_history;
  error_count = r.error_count;
  current_task_id = r.current_task_id;
  failure_reason = r.failure_reason;
  failure_stack_trace = r.failure_stack_trace;
  state_entered_at = now;
}

-- The machine after the call, and whether an exception leaves it.
unfoldable pub restore : Answer → Moment → AgentStateMachine → AgentStateMachine × Bool
unfolding load_record
restore unreachable t m = (m, false)
restore refused t m = (m, false)
restore malformed t m = (m, true)
restore (found r) t m =
    let loaded = load_record r t.entered m in
    if state_eq loaded.state planning || state_eq loaded.state executing
    then (
      record loaded {
        pre_pause_state = some loaded.state;
        state = paused;
        state_entered_at = t.stamped;
      },
      false,
    )
    else (loaded, false)

-- The methods that change the machine without the backend.
pub data Call : Type 0 where
  to : AgentState → Option String → Call
  pausing resuming resetting : Call
  failing : String → String → String → Call

unfoldable pub call : Call → Moment → AgentStateMachine → Raises
unfolding transition pause resume reset record_failure
call (to target reason) t m = transition target reason t m
call pausing t m = pause t m
call resuming t m = resume t m
call resetting t m = reset t m
call (failing reason trace task) t m = (record_failure reason trace task m, none)

-- Calls one after another; a caller goes on after an exception.
unfoldable pub run : List (Call × Moment) → AgentStateMachine → AgentStateMachine
run [] m = m
run ((c, t) ∷ cs) m = run cs (call c t m).0
