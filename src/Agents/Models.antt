-- ===== src/Agents/Models.antt =====
-- packages/strategy-engine/src/agents/models.py: the enumerations and the records that the agent
-- modules share. A time is a number of microseconds, where the source keeps its ISO text; a
-- dictionary of free content is its JSON text.
use clartt_capital.Common.{ℕ, Bool, String, Option, List, ◌==◌}

pub data AgentState : Type 0 where
  idle planning executing waiting_for_input reviewing completed failed paused : AgentState

-- The place of a state in the enumeration, by which states are compared.
abbrev pub state_code : AgentState → ℕ
state_code idle = 0
state_code planning = 1
state_code executing = 2
state_code waiting_for_input = 3
state_code reviewing = 4
state_code completed = 5
state_code failed = 6
state_code paused = 7

abbrev pub state_eq : AgentState → AgentState → Bool
state_eq s t = state_code s == state_code t

pub data TaskPriority : Type 0 where
  critical high normal low : TaskPriority

-- `priority.value`
abbrev pub priority_value : TaskPriority → ℕ
priority_value critical = 0
priority_value high = 1
priority_value normal = 2
priority_value low = 3

pub data TaskStatus : Type 0 where
  pending queued in_progress completed failed dead_lettered cancelled : TaskStatus

pub data ApprovalStatus : Type 0 where
  pending approved denied expired : ApprovalStatus

pub record AgentTask : Type 0 where
  pub id : String
  pub type : String
  pub agent_name : String
  pub priority : TaskPriority
  pub payload : String
  pub result : Option String
  pub status : TaskStatus
  pub depends_on : List String
  pub retry_count : ℕ
  pub max_retries : ℕ
  pub error_message : Option String
  pub task_timeout_seconds : ℕ
  pub created_at : ℕ
  pub started_at : Option ℕ
  pub completed_at : Option ℕ

pub record ApprovalRequest : Type 0 where
  pub id : String
  pub agent_name : String
  pub task_id : String
  pub action_description : String
  pub status : ApprovalStatus
  pub resolved_by : Option String
  pub resolution_reason : Option String
  pub created_at : String
  pub resolved_at : Option String

pub record StateTransition : Type 0 where
  pub from_state : AgentState
  pub to_state : AgentState
  pub timestamp : ℕ
  pub reason : Option String

pub record AgentStateRecord : Type 0 where
  pub agent_name : String
  pub current_state : AgentState
  pub state_history : List StateTransition
  pub last_heartbeat : Option ℕ
  pub current_task_id : Option String
  pub error_count : ℕ
  pub failure_reason : Option String
  pub failure_stack_trace : Option String
