-- ===== src/Agents/TaskQueue/Dequeue.antt =====
-- Which task `dequeue` hands out. (task_queue.py, `dequeue`)
use clartt_capital.Common.{
  ℕ, ◌≡◌, ◌⊎◌, inl, inr, refl, String, none, List, [], ◌∷◌, ◌++◌, str_eq, eq_iff, All, arith,
  if◌then◌else◌,
}
use clartt_capital.Agents.Models.{AgentTask, TaskStatus}
use clartt_capital.Agents.TaskQueue.{
  Backing, IsLawful, World, Loaded, absent, present, with_status, load_task, unqueue,
}
use clartt_capital.Agents.TaskQueue.Methods.{met, hand_out, deps_met, verdict}
use clartt_capital.Agents.TaskQueue.Store.{score_of, load-unqueue}

pub Loaded-cases :
    (l : Loaded) → (l ≡ absent) ⊎ (l ≡ Loaded.invalid) ⊎ ((t : AgentTask) × (l ≡ present t))
Loaded-cases absent = inl refl
Loaded-cases Loaded.invalid = inr (inl refl)
Loaded-cases (present t) = inr (inr (t, refl))

-- A dependency is loaded and completed.
abbrev pub IsDone : (B : Backing) → World B → String → Type 0
IsDone B w d = (u : AgentTask) × (load_task B d w ≡ present u) × (u.status ≡ TaskStatus.completed)

-- The agent may start the task: it is the agent's, it waits, and all it depends on is completed.
abbrev pub CanStart : (B : Backing) → World B → String → AgentTask → Type 0
CanStart B w agent t =
    (t.agent_name ≡ agent)
    × ((t.status ≡ TaskStatus.queued) ⊎ (t.status ≡ TaskStatus.pending))
    × All (IsDone B w) t.depends_on

module _ (B : Backing) where
  deps_met-All : (ds : List String) (w : World B) → deps_met B ds w ≡ met → All (IsDone B w) ds
  unfolding deps_met
  deps_met-All [] w h = tt
  deps_met-All (d ∷ ds) w h = elim (Loaded-cases (load_task B d w)) [
    | inl gone ↦ absurd (cc (rw (gone, deps_met) at h))
    | inr (inl bad) ↦ absurd (cc (rw (bad, deps_met) at h))
    | inr (inr (u, e)) ↦ ((u, e, ground arith), deps_met-All ds w (ground arith))
  ]

  All-deps_met : (ds : List String) (w : World B) → All (IsDone B w) ds → deps_met B ds w ≡ met
  unfolding deps_met
  All-deps_met [] w h = refl
  All-deps_met (d ∷ ds) w ((u, e, c), h) = rw (e, c, deps_met) (All-deps_met ds w h)

  pub verdict-CanStart :
      (agent : String) (t : AgentTask) (w : World B)
      → verdict B agent t w ≡ hand_out
      → CanStart B w agent t
  unfolding verdict
  verdict-CanStart agent t w h =
      let done : deps_met B t.depends_on w ≡ met = ground (arith, eq_iff t.agent_name agent) in
      (
        ground (arith, eq_iff t.agent_name agent),
        ground (arith, eq_iff t.agent_name agent),
        deps_met-All t.depends_on w done,
      )

  pub CanStart-verdict :
      (agent : String) (t : AgentTask) (w : World B)
      → CanStart B w agent t
      → verdict B agent t w ≡ hand_out
  unfolding verdict
  CanStart-verdict agent t w (a, s, ds) =
      ground (arith, eq_iff t.agent_name agent, All-deps_met t.depends_on w ds)

  -- Nothing that the loop writes before it hands a task out changes what is loaded.
  deps_met-unqueue :
      (ds : List String) (id : String) (w : World B)
      → IsLawful B
      → deps_met B ds (unqueue B id w) ≡ deps_met B ds w
  unfolding deps_met
  deps_met-unqueue [] id w L = refl
  deps_met-unqueue (d ∷ ds) id w L =
      ground (arith, load-unqueue B L d id w, deps_met-unqueue ds id w L)

  pub verdict-unqueue :
      (agent : String) (t : AgentTask) (id : String) (w : World B)
      → IsLawful B
      → verdict B agent t (unqueue B id w) ≡ verdict B agent t w
  unfolding verdict
  verdict-unqueue agent t id w L = rw (deps_met-unqueue t.depends_on id w L)

-- The task stored under an id is one that the loop would hand out.
abbrev pub Startable : (B : Backing) → World B → String → String → Type 0
Startable B w agent id =
    (t : AgentTask) × (load_task B id w ≡ present t) × (verdict B agent t w ≡ hand_out)

-- What a run of the loop over `ids` has done that handed out `out`.
pub record Pick (B : Backing) (agent : String) (now : ℕ) (ids : List String) (w w' : World B)
    (out : AgentTask) : Type 0 where
  pub before : List String
  pub id : String
  pub after : List String
  pub task : AgentTask
  pub split : ids ≡ before ++ (id ∷ after)
  pub skipped : All (λ x. ¬ Startable B w agent x) before
  pub loaded : load_task B id w ≡ present task
  pub chosen : verdict B agent task w ≡ hand_out
  pub started : out ≡ with_status TaskStatus.in_progress now task
  pub stored :
      (j : String) → load_task B j w' ≡ (if str_eq task.id j then present out else load_task B j w)
  pub gone : score_of B id w' ≡ none
