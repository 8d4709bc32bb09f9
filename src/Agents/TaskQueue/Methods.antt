-- ===== src/Agents/TaskQueue/Methods.antt =====
-- task_queue.py: `dequeue`, `complete`, `fail`, `cancel`, `_check_timeout` and `get_queue_depth`.
use clartt_capital.Common.{
  ℕ, ◌+◌, ◌*◌, ◌^◌, String, Bool, true, false, Option, none, some, List, [], ◌∷◌, str_eq, ltb,
  if◌then◌else◌,
}
use clartt_capital.Agents.Models.{AgentTask, TaskPriority, TaskStatus}
use clartt_capital.Agents.TaskQueue.{
  Backing, World, Clock, Loaded, absent, present, Reply, done, key_error, Dequeued, nothing, got,
  task_started, task_completed, task_cancelled, task_retrying, task_dead_lettered, queue_key,
  dlq_key, retry_base_seconds, is_ready, is_in_progress, is_completed, with_status, error_or,
  priority_score, publish, persist_task, load_task, enqueue, unqueue,
}

-- Whether the dependencies are completed; `invalid` where loading one of them raises.
pub data Deps : Type 0 where
  met unmet invalid : Deps

-- What the loop of `dequeue` does with a task: skip it, hand it out, or raise.
pub data Verdict : Type 0 where
  skip hand_out raise : Verdict

module _ (B : Backing) where
  unfoldable pub deps_met : List String → World B → Deps
  deps_met [] w = met
  deps_met (d ∷ ds) w = elim (load_task B d w) [
    | absent ↦ unmet
    | Loaded.invalid ↦ Deps.invalid
    | present t ↦ elim (is_completed t.status) [ true ↦ deps_met ds w | false ↦ unmet ]
  ]

  unfoldable pub judge : Deps → Verdict
  judge met = hand_out
  judge unmet = skip
  judge Deps.invalid = raise

  unfoldable pub verdict : String → AgentTask → World B → Verdict
  unfolding judge
  verdict agent t w =
      if str_eq t.agent_name agent
      then if is_ready t.status then judge (deps_met t.depends_on w) else skip
      else skip

  -- A ready task leaves the queue and starts.
  unfoldable pub start : String → ℕ → AgentTask → World B → World B × Dequeued
  start id now task w =
      let t = with_status TaskStatus.in_progress now task in
      (publish B (task_started t.id t.type t.agent_name) (persist_task B t (unqueue B id w)), got t)

  -- The loop over the members of the sorted set.
  unfoldable pub scan : String → ℕ → List String → World B → World B × Dequeued
  unfolding start
  scan agent now [] w = (w, nothing)
  scan agent now (id ∷ ids) w = elim (load_task B id w) [
    | absent ↦ scan agent now ids (unqueue B id w)
    | Loaded.invalid ↦ (w, Dequeued.invalid)
    | present t ↦ elim (verdict agent t w) [
      | skip ↦ scan agent now ids w
      | raise ↦ (w, Dequeued.invalid)
      | hand_out ↦ start id now t w
    ]
  ]

  unfoldable pub dequeue : String → ℕ → World B → World B × Dequeued
  dequeue agent now w = scan agent now (B.redis.zrange queue_key w.db) w

  -- `result` and `duration` are the result's JSON and its `duration_seconds`.
  unfoldable pub complete : String → String → String → ℕ → World B → World B × Reply
  complete id result duration now w = elim (load_task B id w) [
    | absent ↦ (w, key_error)
    | Loaded.invalid ↦ (w, Reply.invalid)
    | present task ↦
        let t = with_status TaskStatus.completed now (record task { result = some result }) in
        (publish B (task_completed t.id t.type t.agent_name duration) (persist_task B t w), done)
  ]

  -- `RETRY_BASE_SECONDS * 2 ** (retry_count - 1)`, after the count has gone up to `suc n`.
  abbrev pub backoff : ℕ → ℕ
  backoff n = retry_base_seconds * 2 ^ n

  unfoldable pub retry_with_backoff : Clock → AgentTask → World B → World B
  retry_with_backoff c task w =
      let seconds = backoff task.retry_count in
      let t =
        with_status TaskStatus.failed c.now (record task { retry_count = task.retry_count + 1 }) in
      let noted =
        publish B (task_retrying t.id t.type t.agent_name t.retry_count t.max_retries seconds)
          (persist_task B t w) in
      let u = record t { status = TaskStatus.queued; completed_at = none } in
      enqueue B u.id
        (B.to_double (priority_score B u.priority c.ns + B.to_double (seconds * 10 ^ 9)))
        (persist_task B u noted)

  unfoldable pub move_to_dlq : Clock → AgentTask → World B → World B
  move_to_dlq c task w =
      let t = with_status TaskStatus.dead_lettered c.now task in
      let saved = persist_task B t w in
      publish B
        (task_dead_lettered t.id t.type t.agent_name (error_or t.error_message "unknown")
          t.retry_count t.max_retries)
        (record saved { db = B.redis.rpush dlq_key (B.dump t) saved.db })

  unfoldable pub fail : String → String → Clock → World B → World B × Reply
  unfolding retry_with_backoff move_to_dlq
  fail id error c w = elim (load_task B id w) [
    | absent ↦ (w, key_error)
    | Loaded.invalid ↦ (w, Reply.invalid)
    | present task ↦
        let t = record task { error_message = some error } in
        (
          if ltb t.retry_count t.max_retries then retry_with_backoff c t w else move_to_dlq c t w,
          done,
        )
  ]

  unfoldable pub cancel_task : String → ℕ → AgentTask → TaskStatus → World B → World B
  cancel_task id now task TaskStatus.in_progress w =
      let t = with_status TaskStatus.cancelled now task in
      publish B (task_cancelled t.id t.type t.agent_name "abort_in_progress") (persist_task B t w)
  cancel_task id now task s w =
      let t = with_status TaskStatus.cancelled now task in
      if is_ready s
      then publish B (task_cancelled t.id t.type t.agent_name "cancelled_by_operator")
          (persist_task B t (unqueue B id w))
      else w

  unfoldable pub cancel : String → ℕ → World B → World B × Reply
  unfolding cancel_task
  cancel id now w = elim (load_task B id w) [
    | absent ↦ (w, key_error)
    | Loaded.invalid ↦ (w, Reply.invalid)
    | present task ↦ (cancel_task id now task task.status w, done)
  ]

  -- `elapsed > task_timeout_seconds`, in microseconds and without a subtraction. `message` formats
  -- the error from the task and the time.
  unfoldable pub timed_out : AgentTask → ℕ → Option ℕ → Bool
  timed_out t now none = false
  timed_out t now (some started) = ltb (started + t.task_timeout_seconds * 10 ^ 6) now

  unfoldable pub check_timeout :
      (AgentTask → ℕ → String) → String → Clock → World B → World B × Reply
  unfolding timed_out
  check_timeout message id c w = elim (load_task B id w) [
    | absent ↦ (w, done)
    | Loaded.invalid ↦ (w, Reply.invalid)
    | present t ↦
        if is_in_progress t.status
        then if timed_out t c.now t.started_at then fail id (message t c.now) c w else (w, done)
        else (w, done)
  ]

pub record Depth : Type 0 where
  pub critical : ℕ
  pub high : ℕ
  pub normal : ℕ
  pub low : ℕ

unfoldable pub bump : TaskPriority → Depth → Depth
bump TaskPriority.critical d = record d { critical = d.critical + 1 }
bump TaskPriority.high d = record d { high = d.high + 1 }
bump TaskPriority.normal d = record d { normal = d.normal + 1 }
bump TaskPriority.low d = record d { low = d.low + 1 }

module _ (B : Backing) where
  -- The loop of `get_queue_depth`; `none` where loading a task raises.
  unfoldable pub count_ready : List String → World B → Depth → Option Depth
  unfolding bump
  count_ready [] w d = some d
  count_ready (id ∷ ids) w d = elim (load_task B id w) [
    | absent ↦ count_ready ids w d
    | Loaded.invalid ↦ none
    | present t ↦ count_ready ids w (if is_ready t.status then bump t.priority d else d)
  ]

  unfoldable pub get_queue_depth : World B → Option Depth
  get_queue_depth w =
      count_ready (B.redis.zrange queue_key w.db) w
        (record { critical = 0; high = 0; normal = 0; low = 0 })
