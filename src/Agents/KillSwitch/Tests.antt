-- ===== src/Agents/KillSwitch/Tests.antt =====
-- Calls of an operator, and the theorems at inputs that meet their hypotheses.
use clartt_capital.Common.{◌≡◌, refl, true, false, not, ◌&&◌, none, List, [], ◌∷◌}
use clartt_capital.Redis.Values.{memory, memory-IsLawful}
use clartt_capital.Agents.KillSwitch.{
  AgentInfo, AgentRegistry, World, Call, activating, deactivating, disabling, is_active,
  is_agent_disabled, can_accept_task, run,
}
use clartt_capital.Agents.KillSwitch.Switches.{Switches, Holds, throw, throw_all, switches_refine}
use clartt_capital.Agents.KillSwitch.Stopping.{running}

-- A registry whose `stop` takes the agents off its list.
abbrev registry : AgentRegistry
registry = record { State = List AgentInfo; list_agents = λ s. s; stop = λ name s. [] }

abbrev agents : List AgentInfo
agents =
    record { name = "research"; state = "EXECUTING" }
    ∷ record { name = "converter"; state = "IDLE" }
    ∷ record { name = "backtest"; state = "PLANNING" }
    ∷ []

abbrev world : World memory registry
world = record { db = λ _. none; agents = agents; stopped = []; published = [] }

abbrev on : Switches
on = record { all_off = false; off = λ _. false }

world-Holds : Holds on world
unfolding is_active is_agent_disabled
world-Holds = (refl, λ a. refl)

abbrev calls : List Call
calls = disabling "research" ∷ activating "operator" 5 ∷ deactivating "operator" 9 ∷ []

off_after : (throw_all calls on).off "research" ≡ true
unfolding throw_all throw
off_after = refl

switches_refine_example :
    let s' = throw_all calls on in
    let w' = run true true calls world in
    Holds s' w' × ((can_accept_task "research" w').0 ≡ (not s'.all_off && not (s'.off "research")))
switches_refine_example =
    switches_refine memory-IsLawful {A = registry} true true calls on world "research" world-Holds

two_running : running agents ≡ "research" ∷ "backtest" ∷ []
unfolding running
two_running = refl
