-- ===== src/Agents/TaskQueue/Tests.antt =====
-- Runs of the task queue over a database in memory, and the theorems about it at inputs that meet
-- their hypotheses.
use clartt_capital.Common.{
  ℕ, ◌+◌, ◌*◌, ◌^◌, ◌≡◌, ◌<◌, refl, String, false, some, none, List, [], ◌∷◌, ◌++◌, length, arith,
  str_eq,
}
use clartt_capital.Redis.Queue.Memory.{memory, empty, memory-IsLawful}
use clartt_capital.Agents.Models.{AgentTask, TaskStatus, TaskPriority, critical, low, normal}
use clartt_capital.Agents.TaskQueue.{
  Backing, IsLawful, World, Clock, present, nothing, got, done, submit, load_task, with_status,
  priority_score, publish, persist_task, enqueue, unqueue,
}
use clartt_capital.Agents.TaskQueue.Methods.{
  dequeue, scan, start, verdict, deps_met, judge, complete, fail, cancel,
}
use clartt_capital.Agents.TaskQueue.Store.{score_of}
use clartt_capital.Agents.TaskQueue.Dequeue.{CanStart}
use clartt_capital.Agents.TaskQueue.Order.{IsKeyed, dequeue_may_start}
use clartt_capital.Agents.TaskQueue.Keyed.{Method, submitting, dequeuing, apply, run, run-IsKeyed}
use clartt_capital.Agents.TaskQueue.Retry.{retried, fail_retries}
use clartt_capital.Agents.TaskQueue.Attempts.{fails, attempts_exhausted}
use clartt_capital.Agents.TaskQueue.Priority.{queued_as}

abbrev backing : Backing
unfolding memory
backing = record {
  redis = memory AgentTask;
  dump = λ t. t;
  validate = λ t. some t;
  to_double = λ n. n;
}

backing-IsLawful : IsLawful backing
unfolding memory
backing-IsLawful = record {
  redis_lawful = memory-IsLawful AgentTask;
  validate-dump = λ t. refl;
  to_double_near = λ n h. (omega arith, omega arith);
}

abbrev task : String → TaskPriority → List String → AgentTask
task id priority deps = record {
  id = id;
  type = "backtest";
  agent_name = "backtest";
  priority = priority;
  payload = "{}";
  result = none;
  status = TaskStatus.pending;
  depends_on = deps;
  retry_count = 0;
  max_retries = 1;
  error_message = none;
  task_timeout_seconds = 600;
  created_at = 0;
  started_at = none;
  completed_at = none;
}

abbrev clock : ℕ → Clock
clock s = record { now = s * 10 ^ 6; ns = s * 10 ^ 9 }

abbrev nowhere : World backing
unfolding memory empty
nowhere = record { db = empty AgentTask; published = [] }

nowhere-IsKeyed : IsKeyed backing nowhere
unfolding load_task memory empty
nowhere-IsKeyed id t h = absurd (cc)

-- One task that depends on another, and one that does not.
abbrev submissions : List (Method × Clock)
submissions =
    (submitting "u1" (task "second" critical ("first" ∷ [])), clock 10)
    ∷ (submitting "u2" (task "first" normal []), clock 20)
    ∷ []

-- Its line opens all that a run calls.
queue : World backing
unfolding run apply submit publish persist_task enqueue unqueue priority_score load_task dequeue
    scan start verdict deps_met judge with_status fail cancel complete fails memory empty
queue = run backing submissions nowhere

queue-IsKeyed : IsKeyed backing queue
unfolding queue
queue-IsKeyed = run-IsKeyed backing backing-IsLawful submissions nowhere nowhere-IsKeyed

abbrev first_stored : AgentTask
first_stored = queued_as "u2" (clock 20) (task "first" normal [])

abbrev first_started : AgentTask
first_started = record first_stored {
  status = TaskStatus.in_progress;
  started_at = some (30 * 10 ^ 6);
}

-- The critical task waits for the one it depends on.
dequeue_first : (dequeue backing "backtest" (30 * 10 ^ 6) queue).1 ≡ got first_started
unfolding queue
dequeue_first = refl

first_loads : load_task backing "first" queue ≡ present first_stored
unfolding queue
first_loads = refl

first_score : score_of backing "first" queue ≡ some (2 * 10 ^ 12 + 20 * 10 ^ 9)
unfolding queue
first_score = refl

dequeue_may_start_example :
    let w' = (dequeue backing "backtest" (30 * 10 ^ 6) queue).0 in
    (t : AgentTask) × (load_task backing "first" queue ≡ present t)
    × CanStart backing queue "backtest" t
    × (first_started ≡ with_status TaskStatus.in_progress (30 * 10 ^ 6) t)
    × (load_task backing "first" w' ≡ present first_started)
    × (score_of backing "first" w' ≡ none)
dequeue_may_start_example =
    dequeue_may_start backing backing-IsLawful "backtest" (30 * 10 ^ 6) queue queue-IsKeyed
      dequeue_first

nothing_for_research : (dequeue backing "research" 0 queue).1 ≡ nothing
unfolding queue
nothing_for_research = refl

fail_retries_example :
    let (w', reply) = fail backing "first" "timeout" (clock 40) queue in
    (reply ≡ done)
    × (load_task backing "first" w' ≡ present (retried "timeout" first_stored))
    × (score_of backing "first" w'
        ≡ some (
            backing.to_double (
              priority_score backing normal (40 * 10 ^ 9)
              + backing.to_double (2 * 2 ^ 0 * 10 ^ 9))))
    × ((j : String)
        → str_eq "first" j ≡ false
        → (load_task backing j w' ≡ load_task backing j queue)
          × (score_of backing j w' ≡ score_of backing j queue))
fail_retries_example =
    fail_retries backing backing-IsLawful "first" "timeout" (clock 40) queue first_loads refl
      (omega arith)

failed_once : World backing
unfolding queue
failed_once = (fail backing "first" "timeout" (clock 40) queue).0

failed_loads : load_task backing "first" failed_once ≡ present (retried "timeout" first_stored)
unfolding failed_once
failed_loads = refl

abbrev one_failure : List (String × Clock)
one_failure = ("timeout", clock 40) ∷ []

attempts_exhausted_example :
    let w' = fails backing "first" one_failure queue in
    ((xs ys : List (String × Clock))
      → one_failure ≡ xs ++ ys
      → (u : AgentTask) × (load_task backing "first" (fails backing "first" xs queue) ≡ present u)
        × (u.retry_count ≡ 0 + length xs)
        × (0 < length xs → u.status ≡ TaskStatus.queued))
    × (v : AgentTask) × (load_task backing "first" (fail backing "first" "crash" (clock 50) w').0
        ≡ present v)
    × (v.status ≡ TaskStatus.dead_lettered)
    × (v.retry_count ≡ 1)
attempts_exhausted_example =
    attempts_exhausted backing backing-IsLawful "first" one_failure "crash" (clock 50) queue
      first_loads refl refl

running : World backing
unfolding queue
running = (dequeue backing "backtest" (30 * 10 ^ 6) queue).0

running-IsKeyed : IsKeyed backing running
unfolding running
running-IsKeyed =
    run-IsKeyed backing backing-IsLawful ((dequeuing "backtest", clock 30) ∷ []) queue queue-IsKeyed

running_loads : load_task backing "first" running ≡ present first_started
unfolding running
running_loads = refl

abbrev restarted : AgentTask
restarted = record (retried "timeout" first_started) { status = TaskStatus.in_progress }

restart :
    (dequeue backing "backtest"
      (700 * 10 ^ 6)
      (fail backing "first" "timeout" (clock 600) running).0).1
    ≡ got restarted
unfolding running
restart = refl

-- A task without dependencies is there as well.
abbrev other : Method × Clock
other = (submitting "u3" (task "other" low []), clock 25)

wider : World backing
unfolding queue
wider = run backing (other ∷ []) queue

wider-IsKeyed : IsKeyed backing wider
unfolding wider
wider-IsKeyed = run-IsKeyed backing backing-IsLawful (other ∷ []) queue queue-IsKeyed

wider_loads : load_task backing "first" wider ≡ present first_stored
unfolding wider
wider_loads = refl

other_handed_out :
    (dequeue backing "backtest" 99 (cancel backing "first" 9 wider).0).1
    ≡ got (record (queued_as "u3" (clock 25) (task "other" low [])) {
      status = TaskStatus.in_progress;
      started_at = some 99;
    })
unfolding wider
other_handed_out = refl

-- A low task of four thousand seconds ago comes before a critical one of now.
abbrev waited : AgentTask
waited = record (queued_as "u4" (clock 10) (task "old" low [])) {
  status = TaskStatus.in_progress;
  started_at = some 77;
}

waited_handed_out :
    (dequeue backing "backtest" 77
      (submit backing "u5"
        (clock 4010)
        (task "new" critical [])
        (submit backing "u4" (clock 10) (task "old" low []) nowhere).0).0).1
    ≡ got waited
unfolding queue
waited_handed_out = refl
