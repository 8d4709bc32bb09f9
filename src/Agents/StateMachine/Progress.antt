-- ===== src/Agents/StateMachine/Progress.antt =====
-- What a refused call leaves, and the way back to IDLE. (state_machine.py)
use clartt_capital.Common.{◌≤◌, ◌≡◌, refl, true, some, none, List, [], ◌∷◌, length, map, arith}
use clartt_capital.Agents.Models.{
  AgentState, idle, planning, executing, waiting_for_input, reviewing, completed, failed, paused,
}
use clartt_capital.Agents.StateMachine.{
  AgentStateMachine, Moment, Call, InvalidTransitionError, to, resuming, contains, pausable_states,
  call, run,
}

-- A call that raises leaves the machine as it was, and the exception names the agent and the state
-- it is in.
pub call_error_unchanged :
    (c : Call) (t : Moment) (m : AgentStateMachine) {e : InvalidTransitionError}
    → (call c t m).1 ≡ some e
    → ((call c t m).0 ≡ m) × (e.agent_name ≡ m.agent_name) × (e.current ≡ m.state)
unfolding call
call_error_unchanged c t m h = ground arith

-- The calls that lead a machine back to IDLE.
abbrev pub route : AgentState → List Call
route idle = []
route paused = resuming ∷ to idle none ∷ []
route _ = to idle none ∷ []

route_from :
    (s : AgentState) (t : Moment) (m : AgentStateMachine)
    → m.state ≡ s
    → (m.state ≡ paused
        → (p : AgentState) × (m.pre_pause_state ≡ some p) × (contains p pausable_states ≡ true))
    → (run (map (λ c. (c, t)) (route s)) m).state ≡ idle
unfolding run call
route_from idle t m e h = e
route_from planning t m e h = ground arith
route_from executing t m e h = ground arith
route_from waiting_for_input t m e h = ground arith
route_from reviewing t m e h = ground arith
route_from completed t m e h = ground arith
route_from failed t m e h = ground arith
route_from paused t m e h = let (p, stored, active) = h e in ground arith

-- From every state at most two calls, a `resume` if it is paused and a `transition` to IDLE, lead
-- back to IDLE, provided that a paused machine has stored an active state to return to.
pub route-idle :
    (t : Moment) (m : AgentStateMachine)
    → (m.state ≡ paused
        → (p : AgentState) × (m.pre_pause_state ≡ some p) × (contains p pausable_states ≡ true))
    → ((run (map (λ c. (c, t)) (route m.state)) m).state ≡ idle) × (length (route m.state) ≤ 2)
route-idle t m h = (route_from m.state t m refl h, short m.state)
  where
    short : (s : AgentState) → length (route s) ≤ 2
    short s = ground arith
