-- ===== src/Agents/TaskQueue/Cancel.antt =====
-- What `cancel` does, by the status of the task. (task_queue.py, `cancel`)
use clartt_capital.Common.{
  ℕ, ◌≡◌, ◌≢◌, refl, ◌∙◌, String, some, none, true, ◌||◌, eq_refl, arith, if◌then◌else◌, subst,
}
use clartt_capital.Agents.Models.{AgentTask, TaskStatus}
use clartt_capital.Agents.TaskQueue.{
  Backing, IsLawful, World, present, got, done, load_task, persist_task, unqueue, publish,
  with_status, is_ready, is_in_progress,
}
use clartt_capital.Agents.TaskQueue.Methods.{dequeue, cancel, cancel_task}
use clartt_capital.Agents.TaskQueue.Store.{score_of, load-persist, score-persist, score-unqueue}
use clartt_capital.Agents.TaskQueue.Order.{IsKeyed, dequeue_may_start}
use clartt_capital.Agents.TaskQueue.Keyed.{cancel-IsKeyed}

abbrev pub cancelled : ℕ → AgentTask → AgentTask
cancelled now t = record t { status = TaskStatus.cancelled; completed_at = some now }

module _ (B : Backing) (L : IsLawful B) (id : String) (now : ℕ) (w : World B) where
  off_queue :
      {t : AgentTask}
      → load_task B id w ≡ present t
      → t.id ≡ id
      → let w' = persist_task B (cancelled now t) (unqueue B id w) in
        (load_task B id w' ≡ present (cancelled now t)) × (score_of B id w' ≡ none)
  off_queue {t} loaded keyed = (
    load-persist B L id (cancelled now t) (unqueue B id w) ∙ rw (keyed, eq_refl id),
    score-persist B L id (cancelled now t) (unqueue B id w)
        ∙ score-unqueue B L id id w
        ∙ rw (eq_refl id),
  )

  cancel_task_stored :
      (s : TaskStatus) {t : AgentTask}
      → load_task B id w ≡ present t
      → t.id ≡ id
      → let w' = cancel_task B id now t s w in
        (load_task B id w'
          ≡ present (if is_ready s || is_in_progress s then cancelled now t else t))
        × (score_of B id w' ≡ (if is_ready s then none else score_of B id w))
  unfolding cancel_task with_status publish load_task
  cancel_task_stored TaskStatus.in_progress {t} loaded keyed = (
    load-persist B L id (cancelled now t) w ∙ rw (keyed, eq_refl id),
    score-persist B L id (cancelled now t) w,
  )
  cancel_task_stored TaskStatus.queued {t} loaded keyed = off_queue loaded keyed
  cancel_task_stored TaskStatus.pending {t} loaded keyed = off_queue loaded keyed
  cancel_task_stored TaskStatus.completed {t} loaded keyed = (loaded, refl)
  cancel_task_stored TaskStatus.failed {t} loaded keyed = (loaded, refl)
  cancel_task_stored TaskStatus.dead_lettered {t} loaded keyed = (loaded, refl)
  cancel_task_stored TaskStatus.cancelled {t} loaded keyed = (loaded, refl)

  -- `cancel` of a stored task: queued or pending, it is stored as cancelled and leaves the queue;
  -- in progress, it is stored as cancelled; in any other status it stays as it was. In the last two
  -- cases its place in the queue is untouched.
  pub cancel_stored :
      {t : AgentTask}
      → load_task B id w ≡ present t
      → t.id ≡ id
      → let (w', reply) = cancel B id now w in
        (reply ≡ done)
        × (load_task B id w'
            ≡ present (if is_ready t.status || is_in_progress t.status then cancelled now t else t))
        × (score_of B id w' ≡ (if is_ready t.status then none else score_of B id w))
  unfolding cancel
  cancel_stored {t} loaded keyed =
      let (stored, score) = cancel_task_stored t.status loaded keyed in
      rw (loaded, cancel) (refl, stored, score)

  -- In a store that keeps each task under its own id, a task that was cancelled while it waited or
  -- ran is not handed out to any agent afterwards.
  pub cancel_not_handed_out :
      (agent : String) (later : ℕ) {t out : AgentTask}
      → IsKeyed B w
      → load_task B id w ≡ present t
      → (is_ready t.status || is_in_progress t.status) ≡ true
      → (dequeue B agent later (cancel B id now w).0).1 ≡ got out
      → out.id ≢ id
  cancel_not_handed_out agent later {t} {out} keyed loaded active h same =
      let w' = (cancel B id now w).0 in
      let (u, l, may, out_is, saved, gone) =
        dequeue_may_start B L agent later w' (cancel-IsKeyed B L id now w keyed) h in
      let here : load_task B id w' ≡ present u = subst (λ k. load_task B k w' ≡ present u) same l in
      let stored = (cancel_stored loaded (keyed id t loaded)).1 in
      let status = may.1 in ground arith
