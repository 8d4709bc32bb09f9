-- ===== src/Agents/TaskQueue/Attempts.antt =====
-- A task over several attempts. (task_queue.py, `fail`, `dequeue`, `_update_status`)
use clartt_capital.Common.{
  ℕ, ◌+◌, ◌≡◌, ◌≤◌, ◌<◌, refl, sym, ◌∙◌, String, some, List, [], ◌∷◌, ◌++◌, length, length-append,
  arith, subst,
}
use clartt_capital.Agents.Models.{AgentTask, TaskStatus}
use clartt_capital.Agents.TaskQueue.{
  Backing, IsLawful, World, Clock, present, got, load_task, with_status,
}
use clartt_capital.Agents.TaskQueue.Methods.{dequeue, fail}
use clartt_capital.Agents.TaskQueue.Order.{IsKeyed, dequeue_may_start}
use clartt_capital.Agents.TaskQueue.Keyed.{fail-IsKeyed}
use clartt_capital.Agents.TaskQueue.Retry.{retried, dead, fail_retries, fail-dead_letters}

-- One failure after another of the same task.
unfoldable pub fails : (B : Backing) → String → List (String × Clock) → World B → World B
fails B id [] w = w
fails B id ((error, c) ∷ es) w = fails B id es (fail B id error c w).0

module _ (B : Backing) (L : IsLawful B) (id : String) where
  fails_stored :
      (es : List (String × Clock)) (w : World B) {t : AgentTask}
      → load_task B id w ≡ present t
      → t.id ≡ id
      → t.retry_count + length es ≤ t.max_retries
      → (u : AgentTask) × (load_task B id (fails B id es w) ≡ present u)
        × (u.id ≡ id)
        × (u.retry_count ≡ t.retry_count + length es)
        × (u.max_retries ≡ t.max_retries)
        × (0 < length es → u.status ≡ TaskStatus.queued)
  unfolding fails
  fails_stored [] w {t} loaded keyed h =
      (t, loaded, keyed, omega arith, refl, λ z. absurd (omega arith))
  fails_stored ((error, c) ∷ []) w {t} loaded keyed h = (
    retried error t,
    (fail_retries B L id error c w loaded keyed (omega arith)).1,
    keyed,
    omega arith,
    refl,
    λ z. refl,
  )
  fails_stored ((error, c) ∷ e ∷ es) w {t} loaded keyed h =
      let first = fail_retries B L id error c w loaded keyed (omega arith) in
      let (u, l, k, r, m, q) =
        fails_stored (e ∷ es) (fail B id error c w).0 {t = retried error t} first.1 keyed
          (omega arith) in
      (u, l, k, omega (arith, r), m, λ z. q (omega arith))

  -- A stored task survives as many failures as it has retries left: after any number of them, at
  -- least one, it is stored as queued with its retries counted. The next failure after all of them
  -- leaves it dead-lettered, with the count at its maximum.
  pub attempts_exhausted :
      (es : List (String × Clock)) (error : String) (c : Clock) (w : World B) {t : AgentTask}
      → load_task B id w ≡ present t
      → t.id ≡ id
      → t.retry_count + length es ≡ t.max_retries
      → let w' = fails B id es w in
        ((xs ys : List (String × Clock))
          → es ≡ xs ++ ys
          → (u : AgentTask) × (load_task B id (fails B id xs w) ≡ present u)
            × (u.retry_count ≡ t.retry_count + length xs)
            × (0 < length xs → u.status ≡ TaskStatus.queued))
        × (v : AgentTask) × (load_task B id (fail B id error c w').0 ≡ present v)
        × (v.status ≡ TaskStatus.dead_lettered)
        × (v.retry_count ≡ t.max_retries)
  attempts_exhausted es error c w {t} loaded keyed h =
      let (u, l, k, r, m, q) = fails_stored es w loaded keyed (omega arith) in
      let last = fail-dead_letters B L id error c (fails B id es w) l k (omega (arith, r, m)) in
      (
        λ xs ys split.
            let shorter = subst (λ es. t.retry_count + length es ≡ t.max_retries) split h in
            let (u, l, k, r, m, q) =
              fails_stored xs w loaded keyed (omega (arith, shorter, length-append xs ys)) in
            (u, l, r, q),
        dead error c.now u,
        last.1,
        refl,
        omega (arith, r, m),
      )

  -- A task that failed with retries left and is handed out again keeps the start of its first
  -- attempt as `started_at`, at whatever time it is handed out: the timeout of every later attempt
  -- is counted from there.
  pub restart_keeps_started_at :
      (agent error : String) (c : Clock) (now s : ℕ) (w : World B) {t out : AgentTask}
      → IsKeyed B w
      → load_task B id w ≡ present t
      → t.started_at ≡ some s
      → t.retry_count < t.max_retries
      → (dequeue B agent now (fail B id error c w).0).1 ≡ got out
      → out.id ≡ id
      → (out.started_at ≡ some s) × (out.retry_count ≡ t.retry_count + 1)
  unfolding with_status
  restart_keeps_started_at agent error c now s w {t} {out} keyed loaded started more h same =
      let w' = (fail B id error c w).0 in
      let retry = fail_retries B L id error c w loaded (keyed id t loaded) more in
      let (u, l, may, out_is, saved, gone) =
        dequeue_may_start B L agent now w' (fail-IsKeyed B L id error c w keyed) h in
      let here : load_task B id w' ≡ present u = subst (λ k. load_task B k w' ≡ present u) same l in
      let stored : present (retried error t) ≡ present u = sym retry.1 ∙ here in
      (ground arith, ground arith)
