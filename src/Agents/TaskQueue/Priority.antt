-- ===== src/Agents/TaskQueue/Priority.antt =====
-- The scores of submitted tasks. (task_queue.py, `_priority_score` and `submit`)
use clartt_capital.Common.{
  ℕ, ◌+◌, ◌*◌, ◌^◌, ◌≡◌, ◌≢◌, ◌≤◌, ◌<◌, refl, sym, ap, ◌∙◌, inl, String, some, arith, str_eq,
  eq_refl, [], false, if◌then◌else◌, subst, All,
}
use mathlib.Core.Path.{subst₂}
use clartt_capital.Redis.Queue.{ScoreLe}
use clartt_capital.Agents.Models.{
  AgentTask, TaskPriority, TaskStatus, priority_value, critical, high, normal, low,
}
use clartt_capital.Agents.TaskQueue.{
  Backing, IsLawful, World, Clock, present, got, priority_score, submit, load_task, persist_task,
  publish,
}
use clartt_capital.Agents.TaskQueue.Store.{
  score_of, load-enqueue, load-persist, score-enqueue, score-persist,
}
use clartt_capital.Agents.TaskQueue.Methods.{dequeue}
use clartt_capital.Agents.TaskQueue.Dequeue.{IsDone}
use clartt_capital.Agents.TaskQueue.Order.{IsKeyed, dequeue_lowest_score}
use clartt_capital.Agents.TaskQueue.Keyed.{submit-IsKeyed}

value-le : (p : TaskPriority) → priority_value p ≤ 3
value-le critical = omega arith
value-le high = omega arith
value-le normal = omega arith
value-le low = omega arith

module _ (B : Backing) (L : IsLawful B) where
  score_near :
      (p : TaskPriority) (ns : ℕ)
      → ns < 2 * 10 ^ 18
      → (priority_score B p ns ≤ priority_value p * 10 ^ 12 + ns + 256)
        × (priority_value p * 10 ^ 12 + ns ≤ priority_score B p ns + 256)
  unfolding priority_score
  score_near p ns h =
      let near = L.to_double_near ns (omega arith) in
      let bound = value-le p in
      let sum = L.to_double_near (priority_value p * 10 ^ 12 + B.to_double ns) (omega arith) in
      (omega arith, omega arith)

  -- Of two submissions, the one whose priority level times 10^12 plus its time in nanoseconds is
  -- lower by more than 512 has the lower score: within 1000 seconds per level the level decides,
  -- and a task that has waited longer than that comes before a more urgent one.
  pub priority_score_order :
      (p q : TaskPriority) (s t : ℕ)
      → s < 2 * 10 ^ 18
      → t < 2 * 10 ^ 18
      → priority_value p * 10 ^ 12 + s + 512 < priority_value q * 10 ^ 12 + t
      → priority_score B p s < priority_score B q t
  priority_score_order p q s t hs ht h = omega (arith, score_near p s hs, score_near q t ht)

-- The task that `submit` stores: an id of its own is kept.
abbrev pub queued_as : String → Clock → AgentTask → AgentTask
queued_as fresh c t = record t {
  id = if str_eq t.id "" then fresh else t.id;
  status = TaskStatus.queued;
  created_at = c.now;
}

module _ (B : Backing) (L : IsLawful B) (fresh : String) (c : Clock) (t : AgentTask)
    (w : World B) where
  -- After `submit` the returned id stands for the task, queued and stamped, at the score of its
  -- priority and time; every other task and its place in the queue are as before.
  pub submit_stored :
      (j : String)
      → let (w', id) = submit B fresh c t w in
        (load_task B j w'
          ≡ (if str_eq id j then present (queued_as fresh c t) else load_task B j w))
        × (score_of B j w'
            ≡ (if str_eq id j then some (priority_score B t.priority c.ns) else score_of B j w))
  unfolding submit publish load_task
  submit_stored j =
      let u = queued_as fresh c t in
      (
        load-enqueue B L j u.id (priority_score B t.priority c.ns) (persist_task B u w)
            ∙ load-persist B L j u w,
        score-enqueue B L j u.id (priority_score B t.priority c.ns) (persist_task B u w)
            ∙ ap (λ o. if str_eq u.id j then some (priority_score B t.priority c.ns) else o)
                (score-persist B L j u w),
      )

  module _ (own : str_eq t.id "" ≡ false) where
    submit_id : (submit B fresh c t w).1 ≡ t.id
    unfolding submit
    submit_id = rw own

    submit_own :
        let w' = (submit B fresh c t w).0 in
        (load_task B t.id w' ≡ present (queued_as fresh c t))
        × (score_of B t.id w' ≡ some (priority_score B t.priority c.ns))
    submit_own =
        let (l, s) = submit_stored t.id in
        (l ∙ rw (submit_id, eq_refl t.id), s ∙ rw (submit_id, eq_refl t.id))

    submit_other :
        (j : String)
        → str_eq t.id j ≡ false
        → let w' = (submit B fresh c t w).0 in
          (load_task B j w' ≡ load_task B j w) × (score_of B j w' ≡ score_of B j w)
    submit_other j ne =
        let (l, s) = submit_stored j in (l ∙ rw (submit_id, ne), s ∙ rw (submit_id, ne))

module _ (B : Backing) (L : IsLawful B) where
  -- Two tasks without dependencies are submitted for one agent, the second after the first. If the
  -- first has waited longer than 1000 seconds for each level by which the second is more urgent,
  -- the agent's next `dequeue` does not hand out the second, whatever its priority.
  pub urgent_waits :
      (a b : AgentTask) (c d : Clock) (fresh fresh' : String) (now : ℕ) (w : World B)
      {out : AgentTask}
      → IsKeyed B w
      → str_eq a.id "" ≡ false
      → str_eq b.id "" ≡ false
      → str_eq b.id a.id ≡ false
      → a.depends_on ≡ []
      → c.ns < 2 * 10 ^ 18
      → d.ns < 2 * 10 ^ 18
      → priority_value a.priority * 10 ^ 12 + c.ns + 512
        < priority_value b.priority * 10 ^ 12 + d.ns
      → (dequeue B a.agent_name now (submit B fresh' d b (submit B fresh c a w).0).0).1 ≡ got out
      → out.id ≢ b.id
  urgent_waits a b c d fresh fresh' now w {out} keyed na nb ne deps hc hd h got_out same =
      let w1 = (submit B fresh c a w).0 in
      let w2 = (submit B fresh' d b w1).0 in
      let first = submit_own B L fresh c a w na in
      let kept = submit_other B L fresh' d b w1 nb a.id ne in
      let second = submit_own B L fresh' d b w1 nb in
      let k = submit-IsKeyed B L fresh' d b w1 (submit-IsKeyed B L fresh c a w keyed) in
      let le =
        dequeue_lowest_score B L a.agent_name now w2 a.id k got_out (kept.1 ∙ first.1)
          (kept.0 ∙ first.0) (refl, inl refl, subst (All (IsDone B w2)) (sym deps) tt) in
      let order = priority_score_order B L a.priority b.priority c.ns d.ns hc hd h in
      let wrong : priority_score B b.priority d.ns ≤ priority_score B a.priority c.ns =
        subst₂ ScoreLe (ap (λ x. score_of B x w2) same ∙ second.1) (kept.1 ∙ first.1) le in
      omega arith
