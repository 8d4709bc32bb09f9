-- ===== src/Agents/KillSwitch/Switches.antt =====
-- The switches as the operator sees them: one for all agents and one for each. (kill_switch.py)
use clartt_capital.Common.{
  ℕ, ◌≡◌, refl, ap, ◌∙◌, Bool, true, false, not, ◌&&◌, List, [], ◌∷◌, String, ◌<>◌, str_eq, eq_refl,
  eq_iff, str_eq-apart, if◌then◌else◌, arith, Bool-cases, inl, inr,
}
use text.Mathlib.TextLemmas.{append_cancel_left}
use clartt_capital.Redis.Values.{RedisValues}
use clartt_capital.Redis.Values
use clartt_capital.Agents.KillSwitch.{
  AgentInfo, AgentRegistry, World, holds, kill_switch_key, disabled_key, is_active,
  is_agent_disabled, can_accept_task, stop_agent, stop_running, stop_named, tell, set_value,
  activate, deactivate, disable_agent, enable_agent, Call, activating, deactivating, disabling,
  enabling, call, run,
}

-- Both switches, without the store.
pub record Switches : Type 0 where
  pub all_off : Bool
  pub off : String → Bool

-- What each call of the operator means.
unfoldable pub throw : Call → Switches → Switches
throw (activating operator now) s = record s { all_off = true }
throw (deactivating operator now) s = record s { all_off = false }
throw (disabling agent) s = record s { off = λ a. if str_eq agent a then true else s.off a }
throw (enabling agent) s = record s { off = λ a. if str_eq agent a then false else s.off a }

unfoldable pub throw_all : List Call → Switches → Switches
throw_all [] s = s
throw_all (c ∷ cs) s = throw_all cs (throw c s)

disabled-kill : (a : String) → str_eq (disabled_key a) kill_switch_key ≡ false
disabled-kill a =
    str_eq-apart 7 "agents:disabled:" "agents:kill_switch" a "" (ground arith) (ground arith)
      (ground arith)

kill-disabled : (a : String) → str_eq kill_switch_key (disabled_key a) ≡ false
kill-disabled a =
    str_eq-apart 7 "agents:kill_switch" "agents:disabled:" "" a (ground arith) (ground arith)
      (ground arith)

str_eq-disabled_key : (a b : String) → str_eq (disabled_key a) (disabled_key b) ≡ str_eq a b
str_eq-disabled_key a b = ground (
  arith,
  eq_iff (disabled_key a) (disabled_key b),
  eq_iff a b,
  append_cancel_left "agents:disabled:" a b,
)

module _ {R : RedisValues} {A : AgentRegistry} where
  either-db : (b : Bool) (v w : World R A) → v.db ≡ w.db → (if b then w else v).db ≡ w.db
  either-db true v w h = refl
  either-db false v w h = h

  stop_running-db : (infos : List AgentInfo) (w : World R A) → (stop_running infos w).db ≡ w.db
  unfolding stop_running stop_agent
  stop_running-db [] w = refl
  stop_running-db (a ∷ infos) w =
      let idle = str_eq a.state "IDLE" in
      stop_running-db infos (if idle then w else stop_agent a.name w)
      ∙ either-db idle (stop_agent a.name w) w refl

  stop_named-db :
      (agent : String) (infos : List AgentInfo) (w : World R A)
      → (stop_named agent infos w).db ≡ w.db
  unfolding stop_named stop_agent
  stop_named-db agent [] w = refl
  stop_named-db agent (a ∷ infos) w = let ih = stop_named-db agent infos w in ground arith

  activate-db :
      (publisher registry : Bool) (o : String) (now : ℕ) (w : World R A)
      → (activate publisher registry o now w).db ≡ R.set kill_switch_key "active" w.db
  unfolding activate tell set_value
  activate-db publisher true o now w =
      let w' = set_value kill_switch_key "active" w in stop_running-db (A.list_agents w'.agents) w'
  activate-db publisher false o now w = refl

  disable-db :
      (registry : Bool) (a : String) (w : World R A)
      → (disable_agent registry a w).db ≡ R.set (disabled_key a) "disabled" w.db
  unfolding disable_agent tell set_value
  disable-db true a w =
      let w' = set_value (disabled_key a) "disabled" w in
      stop_named-db a (A.list_agents w'.agents) w'
  disable-db false a w = refl

-- The store holds the switches.
abbrev pub Holds : {R : RedisValues} {A : AgentRegistry} → Switches → World R A → Type 0
Holds s w = (is_active w ≡ s.all_off) × ((a : String) → is_agent_disabled a w ≡ s.off a)

module _ (R : RedisValues) where
  active : R.Db → Bool
  active d = holds "active" (R.get kill_switch_key d)

  disabled : String → R.Db → Bool
  disabled a d = holds "disabled" (R.get (disabled_key a) d)

module _ {R : RedisValues} (L : Values.IsLawful R) where
  -- A write to another key keeps what a key holds.
  holds-other :
      (text k j v : String) (d : R.Db)
      → str_eq j k ≡ false
      → holds text (R.get k (R.set j v d)) ≡ holds text (R.get k d)
  holds-other text k j v d h = rw (L.get-set k j v d, h) refl

  holds-same : (text k v : String) (d : R.Db) → holds text (R.get k (R.set k v d)) ≡ str_eq v text
  holds-same text k v d = rw (L.get-set k k v d, eq_refl k) refl

module _ {R : RedisValues} (L : Values.IsLawful R) {A : AgentRegistry}
    (publisher registry : Bool) where
  call-Holds :
      (c : Call) (s : Switches) (w : World R A)
      → Holds s w
      → Holds (throw c s) (call publisher registry c w)
  unfolding call throw is_active is_agent_disabled deactivate enable_agent tell set_value active
      disabled
  call-Holds (activating o now) s w (g, d) =
      let e = activate-db publisher registry o now w in
      (
        ap (active R) e ∙ holds-same L "active" kill_switch_key "active" w.db,
        λ a.
            ap (disabled R a) e
            ∙ holds-other L "disabled" (disabled_key a) kill_switch_key "active" w.db
                (kill-disabled a)
            ∙ d a,
      )
  call-Holds (deactivating o now) s w (g, d) = (
    holds-same L "active" kill_switch_key "inactive" w.db,
    λ a.
        holds-other L "disabled" (disabled_key a) kill_switch_key "inactive" w.db (kill-disabled a)
        ∙ d a,
  )
  call-Holds (disabling agent) s w (g, d) =
      let e = disable-db registry agent w in
      (
        ap (active R) e
            ∙ holds-other L "active" kill_switch_key (disabled_key agent) "disabled" w.db
                (disabled-kill agent)
            ∙ g,
        λ a. ap (disabled R a) e ∙ elim (Bool-cases (str_eq agent a)) [
          | inl same ↦
              rw
                (
                  L.get-set (disabled_key a) (disabled_key agent) "disabled" w.db,
                  str_eq-disabled_key agent a,
                  same,
                )
                refl
          | inr other ↦
              rw
                (
                  L.get-set (disabled_key a) (disabled_key agent) "disabled" w.db,
                  str_eq-disabled_key agent a,
                  other,
                )
                (d a)
        ],
      )
  call-Holds (enabling agent) s w (g, d) = (
    rw (L.get-delete kill_switch_key (disabled_key agent) w.db, disabled-kill agent) g,
    λ a. elim (Bool-cases (str_eq agent a)) [
      | inl same ↦
          rw
            (
              L.get-delete (disabled_key a) (disabled_key agent) w.db,
              str_eq-disabled_key agent a,
              same,
            )
            refl
      | inr other ↦
          rw
            (
              L.get-delete (disabled_key a) (disabled_key agent) w.db,
              str_eq-disabled_key agent a,
              other,
            )
            (d a)
    ],
  )

  run-Holds :
      (cs : List Call) (s : Switches) (w : World R A)
      → Holds s w
      → Holds (throw_all cs s) (run publisher registry cs w)
  unfolding run throw_all
  run-Holds [] s w h = h
  run-Holds (c ∷ cs) s w h =
      run-Holds cs (throw c s) (call publisher registry c w) (call-Holds c s w h)

  -- After any sequence of the operator's calls, the store holds the switches that the calls mean: one
  -- for all agents and one for each, which the other calls leave alone, whatever the registry does. A
  -- task for an agent can be accepted exactly when both its switches are on.
  pub switches_refine :
      (cs : List Call) (s : Switches) (w : World R A) (agent : String)
      → Holds s w
      → let s' = throw_all cs s in
        let w' = run publisher registry cs w in
        Holds s' w' × ((can_accept_task agent w').0 ≡ (not s'.all_off && not (s'.off agent)))
  unfolding can_accept_task
  switches_refine cs s w agent h =
      let (g, d) = run-Holds cs s w h in
      ((g, d), accepts (is_active _) (is_agent_disabled agent _) _ _ g (d agent))
    where
      reply : Bool → Bool → Bool × String
      reply a b =
          if a
          then (false, "Global agent kill switch is active")
          else if b
          then (false, "Agent '" <> agent <> "' is disabled")
          else (true, "")

      accepts : (a b p q : Bool) → a ≡ p → b ≡ q → (reply a b).0 ≡ (not p && not q)
      accepts a b p q e f = ground arith
