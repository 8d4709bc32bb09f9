-- ===== src/Agents/TaskQueue/Retry.antt =====
-- What a failure does to a task: another try later, or the dead letter queue. (task_queue.py,
-- `fail`, `_retry_with_backoff`, `_move_to_dlq`)
use clartt_capital.Common.{
  ℕ, ◌+◌, ◌*◌, ◌^◌, ◌≡◌, ◌≤◌, ◌<◌, refl, ◌∙◌, ap, String, false, none, some, [], ◌∷◌, ◌++◌, str_eq,
  eq_refl, arith, ltb, if◌then◌else◌, lt→ltb,
}
use clartt_capital.Agents.Models.{AgentTask, TaskStatus}
use clartt_capital.Agents.TaskQueue.{
  Backing, IsLawful, World, Clock, present, done, load_task, persist_task, publish, dlq_key,
  with_status, priority_score, task_retrying,
}
use clartt_capital.Agents.TaskQueue.Methods.{retry_with_backoff, move_to_dlq, fail, backoff}
use clartt_capital.Agents.TaskQueue.Store.{
  score_of, load-persist, load-publish, load-enqueue, load-push, score-persist, score-enqueue,
  score-push, lrange-persist,
}

-- The task that a failure with retries left stores.
abbrev pub retried : String → AgentTask → AgentTask
retried error t = record t {
  error_message = some error;
  retry_count = t.retry_count + 1;
  status = TaskStatus.queued;
  completed_at = none;
}

abbrev pub dead : String → ℕ → AgentTask → AgentTask
dead error now t = record t {
  error_message = some error;
  status = TaskStatus.dead_lettered;
  completed_at = some now;
}

module _ (B : Backing) (L : IsLawful B) (c : Clock) where
  retry_score : AgentTask → ℕ
  retry_score t =
      B.to_double (priority_score B t.priority c.ns + B.to_double (2 * 2 ^ t.retry_count * 10 ^ 9))

  load-retry :
      (j : String) (t : AgentTask) (w : World B)
      → load_task B j (retry_with_backoff B c t w) ≡ (
          if str_eq t.id j
          then present (record t {
            retry_count = t.retry_count + 1;
            status = TaskStatus.queued;
            completed_at = none;
          })
          else load_task B j w)
  unfolding retry_with_backoff with_status
  load-retry j t w = simp (load-enqueue B L, load-persist B L, load-publish B L) (ground arith)

  score-retry :
      (j : String) (t : AgentTask) (w : World B)
      → score_of B j (retry_with_backoff B c t w)
        ≡ (if str_eq t.id j then some (retry_score t) else score_of B j w)
  unfolding retry_with_backoff with_status retry_score publish
  score-retry j t w =
      let u = record t {
        retry_count = t.retry_count + 1;
        status = TaskStatus.failed;
        completed_at = some c.now;
      } in
      let v = record t {
        retry_count = t.retry_count + 1;
        status = TaskStatus.queued;
        completed_at = none;
      } in
      let saved = persist_task B u w in
      let noted =
        publish B
          (task_retrying t.id t.type t.agent_name (t.retry_count + 1) t.max_retries
            (backoff B t.retry_count))
          saved in
      score-enqueue B L j t.id (retry_score t) (persist_task B v noted)
      ∙ ap (λ o. if str_eq t.id j then some (retry_score t) else o)
          (score-persist B L j v noted ∙ score-persist B L j u w)

  load-dlq :
      (j : String) (t : AgentTask) (w : World B)
      → load_task B j (move_to_dlq B c t w) ≡ (
          if str_eq t.id j
          then present (record t { status = TaskStatus.dead_lettered; completed_at = some c.now })
          else load_task B j w)
  unfolding move_to_dlq with_status publish persist_task load_task
  load-dlq j t w =
      let u = record t { status = TaskStatus.dead_lettered; completed_at = some c.now } in
      load-push B L j (B.dump u) (persist_task B u w) ∙ load-persist B L j u w

  score-dlq :
      (j : String) (t : AgentTask) (w : World B)
      → score_of B j (move_to_dlq B c t w) ≡ score_of B j w
  unfolding move_to_dlq with_status publish
  score-dlq j t w =
      let u = record t { status = TaskStatus.dead_lettered; completed_at = some c.now } in
      score-push B L j (B.dump u) (persist_task B u w) ∙ score-persist B L j u w

  lrange-dlq :
      (t : AgentTask) (w : World B)
      → B.redis.lrange dlq_key (move_to_dlq B c t w).db
        ≡ B.redis.lrange dlq_key w.db
          ++ (B.dump (record t { status = TaskStatus.dead_lettered; completed_at = some c.now })
              ∷ [])
  unfolding move_to_dlq with_status publish
  lrange-dlq t w =
      let u = record t { status = TaskStatus.dead_lettered; completed_at = some c.now } in
      L.redis_lawful.lrange-rpush dlq_key (B.dump u) (persist_task B u w).db
      ∙ ap (λ l. l ++ (B.dump u ∷ [])) (lrange-persist B L u w)

module _ (B : Backing) (L : IsLawful B) (id error : String) (c : Clock) (w : World B)
    {t : AgentTask} (loaded : load_task B id w ≡ present t) (keyed : t.id ≡ id) where
  -- A stored task that fails with retries left is stored as queued again, with the error and one
  -- retry more, and is in the queue at the score of its priority plus 2, 4, 8, … seconds, doubling
  -- with each retry. Every other task and its place in the queue stay as they were.
  pub fail_retries :
      t.retry_count < t.max_retries
      → let (w', reply) = fail B id error c w in
        (reply ≡ done)
        × (load_task B id w' ≡ present (retried error t))
        × (score_of B id w'
            ≡ some (
                B.to_double (
                  priority_score B t.priority c.ns + B.to_double (2 * 2 ^ t.retry_count * 10 ^ 9))))
        × ((j : String)
            → str_eq id j ≡ false
            → (load_task B j w' ≡ load_task B j w) × (score_of B j w' ≡ score_of B j w))
  unfolding fail retry_score
  fail_retries more =
      let u = record t { error_message = some error } in
      rw (loaded, fail)
        (rw (lt→ltb _ _ more) (
          refl,
          load-retry B L c id u w ∙ rw (keyed, eq_refl id),
          score-retry B L c id u w ∙ rw (keyed, eq_refl id),
          λ j ne.
              (load-retry B L c j u w ∙ rw (keyed, ne), score-retry B L c j u w ∙ rw (keyed, ne)),
        ))

  -- A stored task that fails with no retry left is stored as dead-lettered, with the error and the
  -- time, and appended to the dead letter list; its place in the queue and every other task stay as
  -- they were.
  pub fail-dead_letters :
      t.max_retries ≤ t.retry_count
      → let (w', reply) = fail B id error c w in
        (reply ≡ done)
        × (load_task B id w' ≡ present (dead error c.now t))
        × (B.redis.lrange dlq_key w'.db
            ≡ B.redis.lrange dlq_key w.db ++ (B.dump (dead error c.now t) ∷ []))
        × (score_of B id w' ≡ score_of B id w)
        × ((j : String) → str_eq id j ≡ false → load_task B j w' ≡ load_task B j w)
  unfolding fail
  fail-dead_letters spent =
      let u = record t { error_message = some error } in
      let over : ltb t.retry_count t.max_retries ≡ false = ground arith in
      rw (loaded, fail)
        (rw over (
          refl,
          load-dlq B L c id u w ∙ rw (keyed, eq_refl id),
          lrange-dlq B L c u w,
          score-dlq B L c id u w,
          λ j ne. load-dlq B L c j u w ∙ rw (keyed, ne),
        ))
