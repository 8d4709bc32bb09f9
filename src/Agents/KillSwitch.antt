-- ===== src/Agents/KillSwitch.antt =====
-- packages/strategy-engine/src/agents/kill_switch.py: `AgentKillSwitch`. The registry is an interface
-- over an unknown state: its list of agents with their states, and `stop`, whose exceptions are caught
-- here. Gauges and counters are left out. A publication that fails is caught too, so it is recorded.
mod Switches
mod Stopping
mod Tests
use clartt_capital.Common.{
  ℕ, Bool, true, false, not, Option, none, some, List, [], ◌∷◌, ◌++◌, String, ◌<>◌, str_eq,
  if◌then◌else◌,
}
use clartt_capital.Redis.Values.{RedisValues}

abbrev pub kill_switch_key : String
kill_switch_key = "agents:kill_switch"

abbrev pub disabled_key : String → String
disabled_key agent = "agents:disabled:" <> agent

pub record AgentInfo : Type 0 where
  pub name : String
  pub state : String

pub record AgentRegistry : Type 1 where
  pub State : Type 0
  pub list_agents : State → List AgentInfo
  pub stop : String → State → State

-- What is published as an event, and what is broadcast on the activity channel.
pub data Event : Type 0 where
  activated_event deactivated_event : (operator : String) → ℕ → Event
  activated_activity deactivated_activity : (operator : String) → ℕ → Event
  agent_disabled agent_enabled : (agent : String) → Event

-- `stopped` lists the agents that `stop` was called for.
pub record World (R : RedisValues) (A : AgentRegistry) : Type 0 where
  pub db : R.Db
  pub agents : A.State
  pub stopped : List String
  pub published : List Event

abbrev pub holds : String → Option String → Bool
holds text none = false
holds text (some v) = str_eq v text

module _ {R : RedisValues} {A : AgentRegistry} where
  unfoldable pub is_active : World R A → Bool
  is_active w = holds "active" (R.get kill_switch_key w.db)

  unfoldable pub is_agent_disabled : String → World R A → Bool
  is_agent_disabled agent w = holds "disabled" (R.get (disabled_key agent) w.db)

  unfoldable pub can_accept_task : String → World R A → Bool × String
  can_accept_task agent w =
      if is_active w
      then (false, "Global agent kill switch is active")
      else if is_agent_disabled agent w
      then (false, "Agent '" <> agent <> "' is disabled")
      else (true, "")

  unfoldable pub stop_agent : String → World R A → World R A
  stop_agent agent w = record w {
    agents = A.stop agent w.agents;
    stopped = w.stopped ++ (agent ∷ []);
  }

  -- The loop of `activate` over the agents that were listed.
  unfoldable pub stop_running : List AgentInfo → World R A → World R A
  unfolding stop_agent
  stop_running [] w = w
  stop_running (a ∷ infos) w =
      stop_running infos (if str_eq a.state "IDLE" then w else stop_agent a.name w)

  -- The loop of `disable_agent`, which ends with the first match.
  unfoldable pub stop_named : String → List AgentInfo → World R A → World R A
  unfolding stop_agent
  stop_named agent [] w = w
  stop_named agent (a ∷ infos) w =
      let rest = stop_named agent infos w in
      if str_eq a.name agent
      then if str_eq a.state "IDLE" then rest else stop_agent agent w
      else rest

  unfoldable pub tell : List Event → World R A → World R A
  tell es w = record w { published = w.published ++ es }

  unfoldable pub set_value : String → String → World R A → World R A
  set_value key v w = record w { db = R.set key v w.db }

  -- `has_publisher` and `has_registry` say whether the constructor got one.
  unfoldable pub activate : (has_publisher has_registry : Bool) → String → ℕ → World R A → World R A
  unfolding tell set_value stop_running
  activate publisher registry operator now w =
      let w' = set_value kill_switch_key "active" w in
      tell
        (if publisher
          then activated_event operator now ∷ activated_activity operator now ∷ []
          else activated_activity operator now ∷ [])
        (if registry then stop_running (A.list_agents w'.agents) w' else w')

  unfoldable pub deactivate : (has_publisher : Bool) → String → ℕ → World R A → World R A
  unfolding tell set_value
  deactivate publisher operator now w =
      tell
        (if publisher
          then deactivated_event operator now ∷ deactivated_activity operator now ∷ []
          else deactivated_activity operator now ∷ [])
        (set_value kill_switch_key "inactive" w)

  unfoldable pub disable_agent : (has_registry : Bool) → String → World R A → World R A
  unfolding tell set_value stop_named
  disable_agent registry agent w =
      let w' = set_value (disabled_key agent) "disabled" w in
      tell (agent_disabled agent ∷ [])
        (if registry then stop_named agent (A.list_agents w'.agents) w' else w')

  unfoldable pub enable_agent : String → World R A → World R A
  unfolding tell
  enable_agent agent w =
      tell (agent_enabled agent ∷ []) (record w { db = R.delete (disabled_key agent) w.db })

-- The operator's calls.
pub data Call : Type 0 where
  activating deactivating : (operator : String) → ℕ → Call
  disabling enabling : (agent : String) → Call

module _ {R : RedisValues} {A : AgentRegistry} (publisher registry : Bool) where
  unfoldable pub call : Call → World R A → World R A
  unfolding activate deactivate disable_agent enable_agent
  call (activating operator now) w = activate publisher registry operator now w
  call (deactivating operator now) w = deactivate publisher operator now w
  call (disabling agent) w = disable_agent registry agent w
  call (enabling agent) w = enable_agent agent w

  unfoldable pub run : List Call → World R A → World R A
  run [] w = w
  run (c ∷ cs) w = run cs (call c w)
