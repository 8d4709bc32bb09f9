-- ===== src/Agents/TaskQueue/Order.antt =====
-- What `dequeue` promises: the task it hands out may start, comes first among those that may, and
-- is marked; nothing is handed out only if no task may start. (task_queue.py, `dequeue`)
use clartt_capital.Common.{
  ℕ, ◌≡◌, inl, inr, refl, sym, ap, ◌∙◌, String, true, Option, none, some, List, [], ◌∷◌, ◌++◌,
  str_eq, eq_iff, eq_refl, All, arith, Bool-cases, subst,
}
use clartt_capital.Redis.Queue.{member, is_some, ScoreLe, Ascending}
use clartt_capital.Agents.Models.{AgentTask, TaskStatus}
use clartt_capital.Agents.TaskQueue.{
  Backing, IsLawful, World, present, nothing, got, queue_key, with_status, load_task,
}
use clartt_capital.Agents.TaskQueue.Methods.{dequeue}
use clartt_capital.Agents.TaskQueue.Store.{score_of}
use clartt_capital.Agents.TaskQueue.Dequeue.{
  CanStart, verdict-CanStart, CanStart-verdict, Startable,
}
use clartt_capital.Agents.TaskQueue.Scan.{scan-Pick, scan_nothing}

-- Every task is stored under its own id.
abbrev pub IsKeyed : (B : Backing) → World B → Type 0
IsKeyed B w = (id : String) (t : AgentTask) → load_task B id w ≡ present t → t.id ≡ id

with_status-id : (now : ℕ) (t : AgentTask) → (with_status TaskStatus.in_progress now t).id ≡ t.id
unfolding with_status
with_status-id now t = refl

ScoreLe-refl : (o : Option ℕ) → ScoreLe o o
ScoreLe-refl none = tt
ScoreLe-refl (some n) = omega arith

All-member :
    (P : String → Type 0) (j : String) (xs : List String) → All P xs → member j xs ≡ true → P j
All-member P j [] h m = absurd (cc)
All-member P j (x ∷ xs) h m = elim (Bool-cases (str_eq x j)) [
  | inl same ↦ subst P ((eq_iff x j).0 same) h.0
  | inr other ↦ All-member P j xs h.1 (rw other at m)
]

-- In a list in ascending order, nothing that satisfies `P` comes before the first that does.
first-ScoreLe :
    (score : String → Option ℕ) (P : String → Type 0) (xs ys : List String) (i j : String)
    → Ascending score (xs ++ (i ∷ ys))
    → All (λ x. ¬ P x) xs
    → P j
    → member j (xs ++ (i ∷ ys)) ≡ true
    → ScoreLe (score i) (score j)
first-ScoreLe score P [] ys i j asc none_yet p m = elim (Bool-cases (str_eq i j)) [
  | inl same ↦
      subst (λ x. ScoreLe (score i) (score x)) ((eq_iff i j).0 same) (ScoreLe-refl (score i))
  | inr other ↦ All-member (λ b. ScoreLe (score i) (score b)) j ys asc.0 (rw other at m)
]
first-ScoreLe score P (x ∷ xs) ys i j asc none_yet p m = elim (Bool-cases (str_eq x j)) [
  | inl same ↦ absurd (none_yet.0 (subst P (sym ((eq_iff x j).0 same)) p))
  | inr other ↦ first-ScoreLe score P xs ys i j asc.1 none_yet.1 p (rw other at m)
]

module _ (B : Backing) (L : IsLawful B) (agent : String) (now : ℕ) (w : World B) where
  queued-member :
      (j : String) {s : ℕ}
      → score_of B j w ≡ some s
      → member j (B.redis.zrange queue_key w.db) ≡ true
  queued-member j e = L.redis_lawful.member-zrange queue_key j w.db ∙ ap is_some e

  -- Over a store that keeps each task under its own id, a task that `dequeue` hands out was stored
  -- as one that the agent may start: it is the agent's, was queued or pending, and all its
  -- dependencies were completed. It is now in progress, stored as such, and out of the queue.
  pub dequeue_may_start :
      {out : AgentTask}
      → IsKeyed B w
      → (dequeue B agent now w).1 ≡ got out
      → let w' = (dequeue B agent now w).0 in
        (t : AgentTask) × (load_task B out.id w ≡ present t)
        × CanStart B w agent t
        × (out ≡ with_status TaskStatus.in_progress now t)
        × (load_task B out.id w' ≡ present out)
        × (score_of B out.id w' ≡ none)
  unfolding dequeue
  dequeue_may_start {out} keyed h =
      let p = scan-Pick B L agent now (B.redis.zrange queue_key w.db) w h in
      let same : p.task.id ≡ p.id = keyed p.id p.task p.loaded in
      let here : out.id ≡ p.id =
        ap (λ (x : AgentTask). x.id) p.started ∙ with_status-id now p.task ∙ same in
      (
        p.task,
        rw here p.loaded,
        verdict-CanStart B agent p.task w p.chosen,
        p.started,
        subst (λ k. load_task B k (dequeue B agent now w).0 ≡ present out) (sym here)
            (p.stored p.id ∙ rw (same, eq_refl p.id)),
        rw here p.gone,
      )

  -- Over such a store, a task that `dequeue` hands out comes first: its score in the queue is at
  -- most that of every queued task that the agent may start.
  pub dequeue_lowest_score :
      {out u : AgentTask} (j : String) {s : ℕ}
      → IsKeyed B w
      → (dequeue B agent now w).1 ≡ got out
      → score_of B j w ≡ some s
      → load_task B j w ≡ present u
      → CanStart B w agent u
      → ScoreLe (score_of B out.id w) (score_of B j w)
  unfolding dequeue
  dequeue_lowest_score {out} {u} j keyed h queued loaded may =
      let p = scan-Pick B L agent now (B.redis.zrange queue_key w.db) w h in
      let same : p.task.id ≡ p.id = keyed p.id p.task p.loaded in
      let here : out.id ≡ p.id =
        ap (λ (x : AgentTask). x.id) p.started ∙ with_status-id now p.task ∙ same in
      rw here (
        first-ScoreLe (λ m. score_of B m w) (Startable B w agent) p.before p.after p.id j
          (subst (Ascending (λ m. score_of B m w)) p.split
            (L.redis_lawful.zrange_ascending queue_key w.db))
          p.skipped (u, loaded, CanStart-verdict B agent u w may)
          (subst (λ l. member j l ≡ true) p.split (queued-member j queued)))

  -- `dequeue` returns None only if no queued task may be started by the agent.
  pub dequeue_nothing :
      {u : AgentTask} (j : String) {s : ℕ}
      → (dequeue B agent now w).1 ≡ nothing
      → score_of B j w ≡ some s
      → load_task B j w ≡ present u
      → ¬ CanStart B w agent u
  unfolding dequeue
  dequeue_nothing {u} j h queued loaded may =
      All-member (λ x. ¬ Startable B w agent x) j (B.redis.zrange queue_key w.db)
        (scan_nothing B L agent now (B.redis.zrange queue_key w.db) w h) (queued-member j queued)
        (u, loaded, CanStart-verdict B agent u w may)
