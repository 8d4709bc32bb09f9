-- ===== src/Agents/TaskQueue.antt =====
-- packages/strategy-engine/src/agents/task_queue.py: `TaskQueue`. Redis, the JSON codec of the task
-- model and the rounding of a whole number to a double are a parameter; the readings of the clock
-- are arguments. A method leaves a new `World`: the database, and what was published.
pub mod Store
pub mod Methods
pub mod Dequeue
pub mod Scan
pub mod Order
pub mod Keyed
pub mod Retry
pub mod Attempts
pub mod Cancel
pub mod Priority
mod Tests
use clartt_capital.Common.{
  ◌<◌, ℕ, zero, suc, ◌+◌, ◌-◌, ◌*◌, ◌^◌, ◌≤◌, ◌≡◌, String, ◌<>◌, Bool, true, false, not, ◌||◌,
  Option, none, some, List, [], ◌∷◌, ◌++◌, str_eq, ltb, if◌then◌else◌,
}
use clartt_capital.Redis.Queue as RedisQueues
use clartt_capital.Redis.Queue.{RedisQueue}
use clartt_capital.Agents.Models.{
  AgentTask, TaskPriority, TaskStatus, priority_value, critical, high, normal, low,
}

-- What the queue is built on. `to_double` is the double nearest to a whole number; doubles below
-- 2 ^ 61 are at most 256 apart.
pub record Backing : Type 1 where
  pub redis : RedisQueue
  pub dump : AgentTask → redis.Text
  pub validate : redis.Text → Option AgentTask
  pub to_double : ℕ → ℕ

pub record IsLawful (B : Backing) : Type 0 where
  pub redis_lawful : RedisQueues.IsLawful B.redis
  pub validate-dump : (t : AgentTask) → B.validate (B.dump t) ≡ some t
  pub to_double_near : (n : ℕ) → n < 2 ^ 61 → (B.to_double n ≤ n + 128) × (n ≤ B.to_double n + 128)

abbrev pub task_key : String → String
task_key id = ("agents:task" <> ":") <> id

abbrev pub queue_key : String
queue_key = "agents:task_queue"

abbrev pub dlq_key : String
dlq_key = "agents:dlq"

abbrev pub retry_base_seconds : ℕ
retry_base_seconds = 2

-- The events, with the fields of their payloads.
pub data Event : Type 0 where
  task_queued : (id type agent : String) (priority : ℕ) → Event
  task_started : (id type agent : String) → Event
  task_completed : (id type agent duration : String) → Event
  task_cancelled : (id type agent reason : String) → Event
  task_retrying : (id type agent : String) (retries max_retries backoff_seconds : ℕ) → Event
  task_dead_lettered : (id type agent error : String) (retries max_retries : ℕ) → Event

pub record World (B : Backing) : Type 0 where
  pub db : B.redis.Db
  pub published : List Event

-- A reading of `datetime.now`, in microseconds, and one of `time.time_ns`.
pub record Clock : Type 0 where
  pub now : ℕ
  pub ns : ℕ

-- What `_load_task` finds: no entry, an entry that the model refuses (it raises), or a task.
pub data Loaded : Type 0 where
  absent invalid : Loaded
  present : AgentTask → Loaded

pub data Reply : Type 0 where
  done key_error invalid : Reply

pub data Dequeued : Type 0 where
  nothing invalid : Dequeued
  got : AgentTask → Dequeued

abbrev pub is_ready : TaskStatus → Bool
is_ready TaskStatus.queued = true
is_ready TaskStatus.pending = true
is_ready _ = false

abbrev pub is_in_progress : TaskStatus → Bool
is_in_progress TaskStatus.in_progress = true
is_in_progress _ = false

abbrev pub is_completed : TaskStatus → Bool
is_completed TaskStatus.completed = true
is_completed _ = false

abbrev pub first_time : Option ℕ → ℕ → Option ℕ
first_time none now = some now
first_time (some t) now = some t

-- The task that `_update_status` leaves and persists.
pub with_status : TaskStatus → ℕ → AgentTask → AgentTask
with_status TaskStatus.in_progress now t = record t {
  status = TaskStatus.in_progress;
  started_at = first_time t.started_at now;
}
with_status TaskStatus.completed now t = record t {
  status = TaskStatus.completed;
  completed_at = some now;
}
with_status TaskStatus.failed now t = record t {
  status = TaskStatus.failed;
  completed_at = some now;
}
with_status TaskStatus.dead_lettered now t = record t {
  status = TaskStatus.dead_lettered;
  completed_at = some now;
}
with_status TaskStatus.cancelled now t = record t {
  status = TaskStatus.cancelled;
  completed_at = some now;
}
with_status TaskStatus.pending now t = record t { status = TaskStatus.pending }
with_status TaskStatus.queued now t = record t { status = TaskStatus.queued }

abbrev pub error_or : Option String → String → String
error_or none d = d
error_or (some e) d = if str_eq e "" then d else e

module _ (B : Backing) where
  open B.redis use {get, set, zadd, zrem, zrange, rpush}

  -- priority.value * 1e12 + time_ns, in doubles.
  pub priority_score : TaskPriority → ℕ → ℕ
  priority_score p ns = B.to_double (priority_value p * 10 ^ 12 + B.to_double ns)

  pub publish : Event → World B → World B
  publish e w = record w { published = w.published ++ (e ∷ []) }

  pub persist_task : AgentTask → World B → World B
  persist_task t w = record w { db = set (task_key t.id) (B.dump t) w.db }

  validated : Option AgentTask → Loaded
  validated none = Loaded.invalid
  validated (some t) = present t

  pub load_task : String → World B → Loaded
  unfolding validated
  load_task id w = elim (get (task_key id) w.db) [
    | none ↦ absent
    | some raw ↦ validated (B.validate raw)
  ]

  pub enqueue : String → ℕ → World B → World B
  enqueue id score w = record w { db = zadd queue_key id score w.db }

  pub unqueue : String → World B → World B
  unqueue id w = record w { db = zrem queue_key id w.db }

  -- `fresh` is the UUID that a task without an id gets.
  unfoldable pub submit : String → Clock → AgentTask → World B → World B × String
  unfolding publish persist_task enqueue priority_score
  submit fresh c task w =
      let t = record task {
        id = if str_eq task.id "" then fresh else task.id;
        status = TaskStatus.queued;
        created_at = c.now;
      } in
      (
        publish (task_queued t.id t.type t.agent_name (priority_value t.priority))
            (enqueue t.id (priority_score t.priority c.ns) (persist_task t w)),
        t.id,
      )
