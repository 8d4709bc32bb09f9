-- ===== src/Agents/TaskQueue/Store.antt =====
-- How loading a task and the place in the queue react to each write. (task_queue.py, the helpers)
use text.Mathlib.TextLemmas.{append_cancel_left}
use clartt_capital.Common.{
  code_at, code_at-append, ℕ, zero, suc, ◌<◌, ◌≡◌, ◌≢◌, refl, ap, String, ◌<>◌, Bool, true, false,
  Option, none, some, str_eq, eq_iff, eq_refl, arith, if◌then◌else◌, ◌∙◌, sym, Bool-cases, inl, inr,
}
use clartt_capital.Agents.Models.{AgentTask}
use clartt_capital.Agents.TaskQueue.{
  Backing, IsLawful, World, present, Event, task_key, queue_key, dlq_key, publish, persist_task,
  load_task, enqueue, unqueue,
}

str_eq-task_key : (a b : String) → str_eq (task_key a) (task_key b) ≡ str_eq a b
str_eq-task_key a b = ground (
  arith,
  eq_iff (task_key a) (task_key b),
  eq_iff a b,
  append_cancel_left ("agents:task" <> ":") a b,
)

queue_key-ne-task_key : (id : String) → queue_key ≢ task_key id
queue_key-ne-task_key id e =
    omega (arith, ap (code_at 11) e, code_at-append 11 "agents:task:" id (omega arith))

dlq_key-ne-task_key : (id : String) → dlq_key ≢ task_key id
dlq_key-ne-task_key id e =
    omega (arith, ap (code_at 7) e, code_at-append 7 "agents:task:" id (omega arith))

dlq_key-ne-queue_key : dlq_key ≢ queue_key
dlq_key-ne-queue_key = ground (arith, eq_iff dlq_key queue_key)

-- The place of a task in the queue.
abbrev pub score_of : (B : Backing) → String → World B → Option ℕ
score_of B id w = B.redis.zscore queue_key id w.db

module _ (B : Backing) (L : IsLawful B) where
  open L use {redis_lawful, validate-dump}

  pub load-persist :
      (j : String) (t : AgentTask) (w : World B)
      → load_task B j (persist_task B t w) ≡ (if str_eq t.id j then present t else load_task B j w)
  unfolding load_task persist_task
  load-persist j t w =
      rw
        (
          redis_lawful.get-set (task_key j) (task_key t.id) (B.dump t) w.db,
          str_eq-task_key t.id j,
          load_task,
        )
        (ground (arith, validate-dump t))

  pub load-enqueue :
      (j id : String) (score : ℕ) (w : World B)
      → load_task B j (enqueue B id score w) ≡ load_task B j w
  unfolding load_task enqueue
  load-enqueue j id score w = rw (
    redis_lawful.get-zadd (task_key j) queue_key id score w.db (queue_key-ne-task_key j),
    load_task,
  )

  pub load-unqueue :
      (j id : String) (w : World B) → load_task B j (unqueue B id w) ≡ load_task B j w
  unfolding load_task unqueue
  load-unqueue j id w =
      rw (redis_lawful.get-zrem (task_key j) queue_key id w.db (queue_key-ne-task_key j), load_task)

  pub load-publish :
      (j : String) (e : Event) (w : World B) → load_task B j (publish B e w) ≡ load_task B j w
  unfolding load_task publish
  load-publish j e w = refl

  pub load-push :
      (j : String) (v : B.redis.Text) (w : World B)
      → load_task B j (record w { db = B.redis.rpush dlq_key v w.db }) ≡ load_task B j w
  unfolding load_task
  load-push j v w =
      rw (redis_lawful.get-rpush (task_key j) dlq_key v w.db (dlq_key-ne-task_key j), load_task)

  pub score-persist :
      (j : String) (t : AgentTask) (w : World B)
      → score_of B j (persist_task B t w) ≡ score_of B j w
  unfolding persist_task
  score-persist j t w =
      redis_lawful.zscore-set queue_key j (task_key t.id) (B.dump t) w.db
        (λ e. queue_key-ne-task_key t.id (sym e))

  pub score-enqueue :
      (j id : String) (score : ℕ) (w : World B)
      → score_of B j (enqueue B id score w) ≡ (if str_eq id j then some score else score_of B j w)
  unfolding enqueue
  score-enqueue j id score w = redis_lawful.zscore-zadd queue_key j id score w.db

  pub score-unqueue :
      (j id : String) (w : World B)
      → score_of B j (unqueue B id w) ≡ (if str_eq id j then none else score_of B j w)
  unfolding unqueue
  score-unqueue j id w = redis_lawful.zscore-zrem queue_key j id w.db

  pub score-publish :
      (j : String) (e : Event) (w : World B) → score_of B j (publish B e w) ≡ score_of B j w
  unfolding publish
  score-publish j e w = refl

  pub score-push :
      (j : String) (v : B.redis.Text) (w : World B)
      → score_of B j (record w { db = B.redis.rpush dlq_key v w.db }) ≡ score_of B j w
  score-push j v w = redis_lawful.zscore-rpush queue_key j dlq_key v w.db dlq_key-ne-queue_key

module _ (B : Backing) (L : IsLawful B) where
  pub lrange-persist :
      (t : AgentTask) (w : World B)
      → B.redis.lrange dlq_key (persist_task B t w).db ≡ B.redis.lrange dlq_key w.db
  unfolding persist_task
  lrange-persist t w =
      L.redis_lawful.lrange-set dlq_key (task_key t.id) (B.dump t) w.db
        (λ e. dlq_key-ne-task_key t.id (sym e))

pub ruleset store_laws = (
  load-persist, load-enqueue, load-unqueue, load-publish, load-push, score-persist, score-enqueue,
  score-unqueue, score-publish, score-push, eq_refl,
)
