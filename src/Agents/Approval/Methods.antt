-- ===== src/Agents/Approval/Methods.antt =====
-- The methods of `ApprovalGateManager` that request an approval and resolve it.
use clartt_capital.Common.{Bool, Option, none, some, [], ◌∷◌, ◌++◌, String, ◌<>◌, if◌then◌else◌}
use clartt_capital.Breaker.{Outcome, returned, raised}
use clartt_capital.Agents.Models.{AgentState, ApprovalRequest}
use clartt_capital.Agents.Autonomy.{AutonomyMode}
use clartt_capital.Agents.Approval.Records.{
  Fresh, Hashes, Notice, World, activity, approved_request, clean, denied_request, dump, event,
  granted_request, is_pending, new_request, parsed, streamed, transitioned,
}

module _ (R : Hashes) where
  unfoldable pub note : Notice → World R → World R
  note n w = record w { notices = w.notices ++ (n ∷ []) }

  unfoldable pub load_request : Fresh → String → R.Db → Outcome (Option ApprovalRequest)
  unfolding parsed
  load_request f id db = parsed f (R.hgetall id db)

  unfoldable pub save_request : ApprovalRequest → World R → World R × Outcome (Unit {0})
  unfolding clean dump
  save_request r w =
      let (db, out) = R.hset r.id (clean (dump r)) w.db in (record w { db = db }, out)

  -- What `request_approval` stores as it is, without the texts that stand for None.
  unfoldable pub create : ApprovalRequest → World R → World R × Outcome (Unit {0})
  unfolding dump
  create r w = let (db, out) = R.hset r.id (dump r) w.db in (record w { db = db }, out)

  unfoldable pub index : String → World R → World R
  index id w = record w { db = R.sadd id w.db }

  unfoldable pub unindex : String → World R → World R
  unindex id w = record w { db = R.srem id w.db }

  unfoldable pub move : (has_machine : Bool) → AgentState → String → World R → World R
  unfolding note
  move has_machine target reason w = if has_machine then note (transitioned target reason) w else w

  unfoldable pub auto_approve :
      Fresh → (agent_name task_id action : String) → World R → World R × Outcome String
  unfolding create note
  auto_approve f agent task action w =
      let r = granted_request f agent task action in
      let (w', out) = create r w in
      elim out [
        | raised e ↦ (w', raised e)
        | returned _ ↦ (
          note (activity "ApprovalAutoGranted" r) (note (event "Agent:ApprovalAutoGranted" r) w'),
          returned r.id,
        )
      ]

  -- A request that waits for the operator.
  unfoldable pub ask :
      Fresh
      → (agent_name task_id action : String) → (has_machine : Bool) → World R
      → World R × Outcome String
  unfolding create index move note
  ask f agent task action has_machine w =
      let r = new_request f agent task action in
      let (w', out) = create r w in
      let told =
        move has_machine AgentState.waiting_for_input ("approval requested: " <> action)
          (index r.id w') in
      elim out [
        | raised e ↦ (w', raised e)
        | returned _ ↦ (
          note (activity "ApprovalRequested" r) (
              note (streamed "ApprovalRequested" r)
                (note (event "Agent:ApprovalRequested" r) told)),
          returned r.id,
        )
      ]

  -- The mode is that of the manager, if there is one.
  unfoldable pub request_approval :
      (mode : Option AutonomyMode)
      → Fresh
      → (agent_name task_id action : String) → (has_machine : Bool) → World R
      → World R × Outcome String
  unfolding auto_approve ask
  request_approval (some AutonomyMode.full_autonomy) f agent task action has_machine w =
      auto_approve f agent task action w
  request_approval (some AutonomyMode.approval) f agent task action has_machine w =
      ask f agent task action has_machine w
  request_approval none f agent task action has_machine w = ask f agent task action has_machine w

  -- What `approve` and `deny` do with a request that is pending, changed to its resolution.
  unfoldable pub settle_request :
      (kind : String)
      → AgentState
      → (reason : String) → (has_machine : Bool) → (approval_id : String) → ApprovalRequest
      → World R
      → World R × Outcome (Unit {0})
  unfolding save_request unindex move note
  settle_request kind target reason has_machine id r w =
      let (w', out) = save_request r w in
      elim out [
        | raised e ↦ (w', raised e)
        | returned _ ↦ (
          note (activity kind r) (
              note (streamed "ApprovalResolved" r) (
                note (event "Agent:ApprovalResolved" r)
                  (move has_machine target reason (unindex id w')))),
          returned tt,
        )
      ]

  -- The guards of `approve` and `deny`, and what follows for the request that passes them.
  unfoldable pub when_pending :
      Fresh
      → (approval_id : String) → (ApprovalRequest → World R → World R × Outcome (Unit {0}))
      → World R
      → World R × Outcome (Unit {0})
  when_pending f id go w = elim (load_request f id w.db) [
    | raised e ↦ (w, raised e)
    | returned none ↦ (w, raised "KeyError")
    | returned (some r) ↦ if is_pending r.status then go r w else (w, raised "ValueError")
  ]

  unfoldable pub grant :
      Fresh
      → (approval_id resolved_by : String) → (has_machine : Bool) → ApprovalRequest
      → World R
      → World R × Outcome (Unit {0})
  unfolding settle_request
  grant f id by has_machine r =
      settle_request "ApprovalApproved" AgentState.executing ("approval granted by " <> by)
        has_machine id (approved_request f by r)

  unfoldable pub approve :
      Fresh
      → (approval_id resolved_by : String) → (has_machine : Bool) → World R
      → World R × Outcome (Unit {0})
  unfolding when_pending grant
  approve f id by has_machine = when_pending f id (grant f id by has_machine)

  unfoldable pub refuse :
      Fresh
      → (approval_id resolved_by reason : String) → (has_machine : Bool) → ApprovalRequest
      → World R
      → World R × Outcome (Unit {0})
  unfolding settle_request
  refuse f id by reason has_machine r =
      settle_request "ApprovalDenied" AgentState.reviewing
        ("approval denied by " <> by <> ": " <> reason) has_machine id
        (denied_request f by reason r)

  unfoldable pub deny :
      Fresh
      → (approval_id resolved_by reason : String) → (has_machine : Bool) → World R
      → World R × Outcome (Unit {0})
  unfolding when_pending refuse
  deny f id by reason has_machine = when_pending f id (refuse f id by reason has_machine)
