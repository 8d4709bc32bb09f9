-- ===== src/Agents/TaskQueue/Keyed.antt =====
-- Every method keeps each task stored under its own id. (task_queue.py, all methods)
use clartt_capital.Common.{
  ℕ, inl, inr, sym, ◌∙◌, String, List, [], ◌∷◌, some, eq_iff, arith, Bool-cases, ltb,
}
use clartt_capital.Agents.Models.{AgentTask, TaskStatus}
use clartt_capital.Agents.TaskQueue.{
  Backing, IsLawful, World, Clock, Event, load_task, persist_task, publish, enqueue, unqueue,
  dlq_key, submit, queue_key,
}
use clartt_capital.Agents.TaskQueue.Methods.{
  start, scan, dequeue, complete, retry_with_backoff, move_to_dlq, fail, cancel_task, cancel,
  verdict,
}
use clartt_capital.Agents.TaskQueue.Store.{
  load-persist, load-publish, load-enqueue, load-unqueue, load-push,
}
use clartt_capital.Agents.TaskQueue.Dequeue.{Loaded-cases}
use clartt_capital.Agents.TaskQueue.Scan.{
  Verdict-cases, scan-absent, scan-invalid, scan_skip, scan_raise, scan-start,
}
use clartt_capital.Agents.TaskQueue.Order.{IsKeyed}

module _ (B : Backing) (L : IsLawful B) where
  persist-IsKeyed : (t : AgentTask) (w : World B) → IsKeyed B w → IsKeyed B (persist_task B t w)
  persist-IsKeyed t w k id u h = ground (arith, load-persist B L id t w, eq_iff t.id id, k id u)

  publish-IsKeyed : (e : Event) (w : World B) → IsKeyed B w → IsKeyed B (publish B e w)
  publish-IsKeyed e w k id u h = k id u (sym (load-publish B L id e w) ∙ h)

  enqueue-IsKeyed : (x : String) (s : ℕ) (w : World B) → IsKeyed B w → IsKeyed B (enqueue B x s w)
  enqueue-IsKeyed x s w k id u h = k id u (sym (load-enqueue B L id x s w) ∙ h)

  unqueue-IsKeyed : (x : String) (w : World B) → IsKeyed B w → IsKeyed B (unqueue B x w)
  unqueue-IsKeyed x w k id u h = k id u (sym (load-unqueue B L id x w) ∙ h)

  push-IsKeyed :
      (v : B.redis.Text) (w : World B)
      → IsKeyed B w
      → IsKeyed B (record w { db = B.redis.rpush dlq_key v w.db })
  push-IsKeyed v w k id u h = k id u (sym (load-push B L id v w) ∙ h)

  pub submit-IsKeyed :
      (fresh : String) (c : Clock) (t : AgentTask) (w : World B)
      → IsKeyed B w
      → IsKeyed B (submit B fresh c t w).0
  unfolding submit
  submit-IsKeyed fresh c t w k = publish-IsKeyed _ _ (enqueue-IsKeyed _ _ _ (persist-IsKeyed _ w k))

  start-IsKeyed :
      (id : String) (now : ℕ) (t : AgentTask) (w : World B)
      → IsKeyed B w
      → IsKeyed B (start B id now t w).0
  unfolding start
  start-IsKeyed id now t w k = publish-IsKeyed _ _ (persist-IsKeyed _ _ (unqueue-IsKeyed id w k))

  scan-IsKeyed :
      (agent : String) (now : ℕ) (ids : List String) (w : World B)
      → IsKeyed B w
      → IsKeyed B (scan B agent now ids w).0
  unfolding scan
  scan-IsKeyed agent now [] w k = k
  scan-IsKeyed agent now (id ∷ ids) w k = elim (Loaded-cases (load_task B id w)) [
    | inl e ↦
        rw (scan-absent B agent now id ids w e)
          (scan-IsKeyed agent now ids _ (unqueue-IsKeyed id w k))
    | inr (inl e) ↦ rw (scan-invalid B agent now id ids w e) k
    | inr (inr (t, e)) ↦ elim (Verdict-cases (verdict B agent t w)) [
      | inl v ↦ rw (scan_skip B agent now id ids w e v) (scan-IsKeyed agent now ids w k)
      | inr (inl v) ↦ rw (scan_raise B agent now id ids w e v) k
      | inr (inr v) ↦ rw (scan-start B agent now id ids w e v) (start-IsKeyed id now t w k)
    ]
  ]

  complete-IsKeyed :
      (id result duration : String) (now : ℕ) (w : World B)
      → IsKeyed B w
      → IsKeyed B (complete B id result duration now w).0
  unfolding complete
  complete-IsKeyed id result duration now w k = elim (Loaded-cases (load_task B id w)) [
    | inl e ↦ rw (e, complete) k
    | inr (inl e) ↦ rw (e, complete) k
    | inr (inr (t, e)) ↦ rw (e, complete) (publish-IsKeyed _ _ (persist-IsKeyed _ w k))
  ]

  retry-IsKeyed :
      (c : Clock) (t : AgentTask) (w : World B)
      → IsKeyed B w
      → IsKeyed B (retry_with_backoff B c t w)
  unfolding retry_with_backoff
  retry-IsKeyed c t w k =
      enqueue-IsKeyed _ _ _ (persist-IsKeyed _ _ (publish-IsKeyed _ _ (persist-IsKeyed _ w k)))

  dlq-IsKeyed :
      (c : Clock) (t : AgentTask) (w : World B) → IsKeyed B w → IsKeyed B (move_to_dlq B c t w)
  unfolding move_to_dlq
  dlq-IsKeyed c t w k = publish-IsKeyed _ _ (push-IsKeyed _ _ (persist-IsKeyed _ w k))

  pub fail-IsKeyed :
      (id error : String) (c : Clock) (w : World B)
      → IsKeyed B w
      → IsKeyed B (fail B id error c w).0
  unfolding fail
  fail-IsKeyed id error c w k = elim (Loaded-cases (load_task B id w)) [
    | inl e ↦ rw (e, fail) k
    | inr (inl e) ↦ rw (e, fail) k
    | inr (inr (t, e)) ↦
        let failed = record t { error_message = some error } in
        elim (Bool-cases (ltb t.retry_count t.max_retries)) [
          | inl more ↦ rw (e, fail) (rw more (retry-IsKeyed c failed w k))
          | inr spent ↦ rw (e, fail) (rw spent (dlq-IsKeyed c failed w k))
        ]
  ]

  cancel_task-IsKeyed :
      (id : String) (now : ℕ) (t : AgentTask) (s : TaskStatus) (w : World B)
      → IsKeyed B w
      → IsKeyed B (cancel_task B id now t s w)
  unfolding cancel_task
  cancel_task-IsKeyed id now t TaskStatus.in_progress w k =
      publish-IsKeyed _ _ (persist-IsKeyed _ w k)
  cancel_task-IsKeyed id now t TaskStatus.pending w k =
      publish-IsKeyed _ _ (persist-IsKeyed _ _ (unqueue-IsKeyed id w k))
  cancel_task-IsKeyed id now t TaskStatus.queued w k =
      publish-IsKeyed _ _ (persist-IsKeyed _ _ (unqueue-IsKeyed id w k))
  cancel_task-IsKeyed id now t _ w k = k

  pub cancel-IsKeyed :
      (id : String) (now : ℕ) (w : World B) → IsKeyed B w → IsKeyed B (cancel B id now w).0
  unfolding cancel
  cancel-IsKeyed id now w k = elim (Loaded-cases (load_task B id w)) [
    | inl e ↦ rw (e, cancel) k
    | inr (inl e) ↦ rw (e, cancel) k
    | inr (inr (t, e)) ↦ rw (e, cancel) (cancel_task-IsKeyed id now t t.status w k)
  ]

-- The methods that write.
pub data Method : Type 0 where
  submitting : (fresh : String) → AgentTask → Method
  dequeuing : (agent : String) → Method
  completing : (id result duration : String) → Method
  failing : (id error : String) → Method
  cancelling : (id : String) → Method

unfoldable pub apply : (B : Backing) → Method → Clock → World B → World B
apply B (submitting fresh t) c w = (submit B fresh c t w).0
apply B (dequeuing agent) c w = (dequeue B agent c.now w).0
apply B (completing id result duration) c w = (complete B id result duration c.now w).0
apply B (failing id error) c w = (fail B id error c w).0
apply B (cancelling id) c w = (cancel B id c.now w).0

unfoldable pub run : (B : Backing) → List (Method × Clock) → World B → World B
run B [] w = w
run B ((m, c) ∷ ms) w = run B ms (apply B m c w)

module _ (B : Backing) (L : IsLawful B) where
  apply-IsKeyed : (m : Method) (c : Clock) (w : World B) → IsKeyed B w → IsKeyed B (apply B m c w)
  unfolding apply dequeue
  apply-IsKeyed (submitting fresh t) c w k = submit-IsKeyed B L fresh c t w k
  apply-IsKeyed (dequeuing agent) c w k =
      scan-IsKeyed B L agent c.now (B.redis.zrange queue_key w.db) w k
  apply-IsKeyed (completing id result duration) c w k =
      complete-IsKeyed B L id result duration c.now w k
  apply-IsKeyed (failing id error) c w k = fail-IsKeyed B L id error c w k
  apply-IsKeyed (cancelling id) c w k = cancel-IsKeyed B L id c.now w k

  -- Submitting, dequeuing, completing, failing and cancelling tasks, in any order and from a store
  -- that keeps each task under its own id, leave a store that does.
  pub run-IsKeyed :
      (ms : List (Method × Clock)) (w : World B) → IsKeyed B w → IsKeyed B (run B ms w)
  unfolding run
  run-IsKeyed [] w k = k
  run-IsKeyed ((m, c) ∷ ms) w k = run-IsKeyed ms (apply B m c w) (apply-IsKeyed m c w k)
