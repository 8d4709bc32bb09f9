-- ===== src/Agents/Approval/Records.antt =====
-- What approval.py reads and writes: Redis, the notices, and a request as a hash.
use clartt_capital.Common.{
  Bool, true, false, Option, none, some, List, [], ◌∷◌, String, str_eq, if◌then◌else◌, lookup,
}
use clartt_capital.Breaker.{Outcome, returned, raised}
use clartt_capital.Agents.Models.{AgentState, ApprovalRequest, ApprovalStatus}

-- HSET raises on what is no text or number, such as None.
pub record Hashes : Type 1 where
  pub Db : Type 0
  pub hset : String → List (String × Option String) → Db → Db × Outcome (Unit {0})
  pub hgetall : String → Db → List (String × String)
  pub sadd : String → Db → Db
  pub srem : String → Db → Db
  pub smembers : Db → List String

-- The request tells the agent, the task and the texts of what is published.
pub data Notice : Type 0 where
  transitioned : AgentState → (reason : String) → Notice
  event : (event_type : String) → ApprovalRequest → Notice
  streamed : (event_type : String) → ApprovalRequest → Notice
  activity : (event_type : String) → ApprovalRequest → Notice

pub record World (R : Hashes) : Type 0 where
  pub db : R.Db
  pub notices : List Notice

unfoldable pub status_text : ApprovalStatus → String
status_text ApprovalStatus.pending = "PENDING"
status_text ApprovalStatus.approved = "APPROVED"
status_text ApprovalStatus.denied = "DENIED"
status_text ApprovalStatus.expired = "EXPIRED"

unfoldable pub status_of : String → Option ApprovalStatus
status_of t =
    if str_eq t "PENDING"
    then some ApprovalStatus.pending
    else if str_eq t "APPROVED"
    then some ApprovalStatus.approved
    else if str_eq t "DENIED"
    then some ApprovalStatus.denied
    else if str_eq t "EXPIRED"
    then some ApprovalStatus.expired
    else none

abbrev pub is_pending : ApprovalStatus → Bool
is_pending ApprovalStatus.pending = true
is_pending _ = false

-- `model_dump`.
unfoldable pub dump : ApprovalRequest → List (String × Option String)
unfolding status_text
dump r =
    ("id", some r.id)
    ∷ ("agent_name", some r.agent_name)
    ∷ ("task_id", some r.task_id)
    ∷ ("action_description", some r.action_description)
    ∷ ("status", some (status_text r.status))
    ∷ ("resolved_by", r.resolved_by)
    ∷ ("resolution_reason", r.resolution_reason)
    ∷ ("created_at", some r.created_at)
    ∷ ("resolved_at", r.resolved_at)
    ∷ []

abbrev pub or_blank : Option String → String
or_blank none = ""
or_blank (some t) = t

unfoldable pub clean : List (String × Option String) → List (String × Option String)
clean [] = []
clean ((k, v) ∷ m) = (k, some (or_blank v)) ∷ clean m

-- `model_validate`, with the defaults that the model makes for a missing id and a missing time.
unfoldable pub validate : (fresh now : String) → List (String × String) → Outcome ApprovalRequest
unfolding status_of
validate fresh now h = elim (lookup "agent_name" h) [
  | none ↦ raised "ValidationError"
  | some agent ↦ elim (lookup "task_id" h) [
    | none ↦ raised "ValidationError"
    | some task ↦ elim (lookup "action_description" h) [
      | none ↦ raised "ValidationError"
      | some action ↦
          let stored : Option ApprovalStatus = elim (lookup "status" h) [
            | none ↦ some ApprovalStatus.pending
            | some t ↦ status_of t
          ] in
          elim stored [
            | none ↦ raised "ValidationError"
            | some status ↦ returned (record {
              id = elim (lookup "id" h) [ none ↦ fresh | some t ↦ t ];
              agent_name = agent;
              task_id = task;
              action_description = action;
              status = status;
              resolved_by = lookup "resolved_by" h;
              resolution_reason = lookup "resolution_reason" h;
              created_at = elim (lookup "created_at" h) [ none ↦ now | some t ↦ t ];
              resolved_at = lookup "resolved_at" h;
            })
          ]
    ]
  ]
]

-- What a call reads of the clock and of the generator of ids: two times as texts, the second with its
-- zone.
pub record Fresh : Type 0 where
  pub id : String
  pub created_at : String
  pub now : String

-- What `_load_request` makes of a hash: without fields there is no request.
unfoldable pub parsed : Fresh → List (String × String) → Outcome (Option ApprovalRequest)
unfolding validate
parsed f [] = returned none
parsed f (field ∷ fields) = elim (validate f.id f.created_at (field ∷ fields)) [
  | raised e ↦ raised e
  | returned r ↦ returned (some r)
]

abbrev pub new_request : Fresh → (agent_name task_id action : String) → ApprovalRequest
new_request f agent task action = record {
  id = f.id;
  agent_name = agent;
  task_id = task;
  action_description = action;
  status = ApprovalStatus.pending;
  resolved_by = none;
  resolution_reason = none;
  created_at = f.created_at;
  resolved_at = none;
}

abbrev pub granted_request : Fresh → (agent_name task_id action : String) → ApprovalRequest
granted_request f agent task action = record {
  id = f.id;
  agent_name = agent;
  task_id = task;
  action_description = action;
  status = ApprovalStatus.approved;
  resolved_by = some "auto:full_autonomy";
  resolution_reason = none;
  created_at = f.created_at;
  resolved_at = some f.now;
}

abbrev pub approved_request : Fresh → (resolved_by : String) → ApprovalRequest → ApprovalRequest
approved_request f by r = record r {
  status = ApprovalStatus.approved;
  resolved_by = some by;
  resolved_at = some f.now;
}

abbrev pub denied_request :
    Fresh → (resolved_by reason : String) → ApprovalRequest → ApprovalRequest
denied_request f by reason r = record r {
  status = ApprovalStatus.denied;
  resolved_by = some by;
  resolution_reason = some reason;
  resolved_at = some f.now;
}
