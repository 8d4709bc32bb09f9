-- ===== src/Agents/KillSwitch/Stopping.antt =====
-- Which agents the kill switch stops. (kill_switch.py, `activate`)
use clartt_capital.Common.{
  ℕ, ◌≡◌, refl, sym, ◌∙◌, Bool, true, false, List, [], ◌∷◌, ◌++◌, String, str_eq, if◌then◌else◌,
  append-nil, append_assoc,
}
use clartt_capital.Redis.Values.{RedisValues}
use clartt_capital.Agents.KillSwitch.{
  AgentInfo, AgentRegistry, World, kill_switch_key, stop_agent, stop_running, tell, set_value,
  activate,
}

-- The names of the agents that are not idle.
unfoldable pub running : List AgentInfo → List String
running [] = []
running (a ∷ infos) =
    let rest = running infos in if str_eq a.state "IDLE" then rest else a.name ∷ rest

module _ {R : RedisValues} {A : AgentRegistry} where
  stopped-either :
      (idle : Bool) (name : String) (names : List String) (w : World R A)
      → (if idle then w else stop_agent name w).stopped ++ names
        ≡ w.stopped ++ (if idle then names else name ∷ names)
  unfolding stop_agent
  stopped-either true name names w = refl
  stopped-either false name names w = append_assoc w.stopped (name ∷ []) names

  stopped-stop_running :
      (infos : List AgentInfo) (w : World R A)
      → (stop_running infos w).stopped ≡ w.stopped ++ running infos
  unfolding stop_running running
  stopped-stop_running [] w = sym (append-nil w.stopped)
  stopped-stop_running (a ∷ infos) w =
      let idle = str_eq a.state "IDLE" in
      stopped-stop_running infos (if idle then w else stop_agent a.name w)
      ∙ stopped-either idle a.name (running infos) w

  -- Activating the kill switch calls `stop` for every agent that the registry lists as not idle, in the
  -- order of the list, whether or not an earlier call failed.
  pub activate_stops_running :
      (publisher : Bool) (operator : String) (now : ℕ) (w : World R A)
      → (activate publisher true operator now w).stopped
        ≡ w.stopped ++ running (A.list_agents w.agents)
  unfolding activate tell set_value
  activate_stops_running publisher operator now w =
      let w' = set_value kill_switch_key "active" w in
      stopped-stop_running (A.list_agents w'.agents) w'
