-- ===== src/Agents/TaskQueue/Scan.antt =====
-- The loop of `dequeue`: it hands out the first task of the queue that can be started, and misses
-- none. (task_queue.py, `dequeue`)
use clartt_capital.Common.{
  ℕ, ◌≡◌, ◌≢◌, ◌⊎◌, inl, inr, refl, sym, ap, ◌∙◌, String, List, [], ◌∷◌, str_eq, eq_refl, All,
  arith, if◌then◌else◌,
}
use clartt_capital.Agents.Models.{AgentTask, TaskStatus}
use clartt_capital.Agents.TaskQueue.{
  Backing, IsLawful, World, Loaded, absent, present, Dequeued, nothing, got, with_status,
  persist_task, load_task, unqueue, task_started,
}
use clartt_capital.Agents.TaskQueue.Methods.{Verdict, skip, hand_out, raise, verdict, start, scan}
use clartt_capital.Agents.TaskQueue.Store.{
  load-unqueue, load-persist, load-publish, score-unqueue, score-persist, score-publish,
}
use clartt_capital.Agents.TaskQueue.Dequeue.{Loaded-cases, verdict-unqueue, Startable, Pick}

pub Verdict-cases : (v : Verdict) → (v ≡ skip) ⊎ (v ≡ raise) ⊎ (v ≡ hand_out)
Verdict-cases skip = inl refl
Verdict-cases raise = inr (inl refl)
Verdict-cases hand_out = inr (inr refl)

-- The steps of the loop, as equations.
module _ (B : Backing) (agent : String) (now : ℕ) (id : String) (ids : List String)
    (w : World B) where
  pub scan-absent :
      load_task B id w ≡ absent
      → scan B agent now (id ∷ ids) w ≡ scan B agent now ids (unqueue B id w)
  unfolding scan
  scan-absent e = rw (e, scan)

  pub scan-invalid :
      load_task B id w ≡ Loaded.invalid → scan B agent now (id ∷ ids) w ≡ (w, Dequeued.invalid)
  unfolding scan
  scan-invalid e = rw (e, scan)

  module _ {t : AgentTask} (e : load_task B id w ≡ present t) where
    pub scan_skip :
        verdict B agent t w ≡ skip → scan B agent now (id ∷ ids) w ≡ scan B agent now ids w
    unfolding scan
    scan_skip v = rw (e, v, scan)

    pub scan_raise :
        verdict B agent t w ≡ raise → scan B agent now (id ∷ ids) w ≡ (w, Dequeued.invalid)
    unfolding scan
    scan_raise v = rw (e, v, scan)

    pub scan-start :
        verdict B agent t w ≡ hand_out → scan B agent now (id ∷ ids) w ≡ start B id now t w
    unfolding scan
    scan-start v = rw (e, v, scan)

module _ (B : Backing) (L : IsLawful B) (agent : String) (now : ℕ) where
  Startable-unqueue :
      (id : String) (w : World B) (xs : List String)
      → All (λ x. ¬ Startable B (unqueue B id w) agent x) xs
      → All (λ x. ¬ Startable B w agent x) xs
  Startable-unqueue id w [] h = tt
  Startable-unqueue id w (x ∷ xs) h = (
    λ (t, e, v). h.0 (t, load-unqueue B L x id w ∙ e, verdict-unqueue B agent t id w L ∙ v),
    Startable-unqueue id w xs h.1,
  )

  Pick-start :
      (id : String) (ids : List String) (t : AgentTask) (w : World B) {out : AgentTask}
      → load_task B id w ≡ present t
      → verdict B agent t w ≡ hand_out
      → (start B id now t w).1 ≡ got out
      → Pick B agent now (id ∷ ids) w (start B id now t w).0 out
  unfolding start with_status
  Pick-start id ids t w e v h = record {
    before = [];
    id = id;
    after = ids;
    task = t;
    split = refl;
    skipped = tt;
    loaded = e;
    chosen = v;
    started = ground arith;
    stored = λ j. ground (
      arith,
      load-publish B L j (task_started t.id t.type t.agent_name)
          (persist_task B (with_status TaskStatus.in_progress now t) (unqueue B id w)),
      load-persist B L j (with_status TaskStatus.in_progress now t) (unqueue B id w),
      load-unqueue B L j id w,
    );
    gone =
        score-publish B L id (task_started t.id t.type t.agent_name)
          (persist_task B (with_status TaskStatus.in_progress now t) (unqueue B id w))
        ∙ score-persist B L id (with_status TaskStatus.in_progress now t) (unqueue B id w)
        ∙ rw (score-unqueue B L id id w, eq_refl id);
  }

  Pick-skip :
      (id : String) (ids : List String) (w w' : World B) {out : AgentTask}
      → ¬ Startable B w agent id
      → Pick B agent now ids w w' out
      → Pick B agent now (id ∷ ids) w w' out
  Pick-skip id ids w w' n p = record {
    before = id ∷ p.before;
    id = p.id;
    after = p.after;
    task = p.task;
    split = ap (λ l. id ∷ l) p.split;
    skipped = (n, p.skipped);
    loaded = p.loaded;
    chosen = p.chosen;
    started = p.started;
    stored = p.stored;
    gone = p.gone;
  }

  Pick-unqueue :
      (x : String) (ids : List String) (w w' : World B) {out : AgentTask}
      → Pick B agent now ids (unqueue B x w) w' out
      → Pick B agent now ids w w' out
  Pick-unqueue x ids w w' {out} p = record {
    before = p.before;
    id = p.id;
    after = p.after;
    task = p.task;
    split = p.split;
    skipped = Startable-unqueue x w p.before p.skipped;
    loaded = sym (load-unqueue B L p.id x w) ∙ p.loaded;
    chosen = sym (verdict-unqueue B agent p.task x w L) ∙ p.chosen;
    started = p.started;
    stored = λ j.
        p.stored j
        ∙ ap (λ l. if str_eq p.task.id j then present out else l) (load-unqueue B L j x w);
    gone = p.gone;
  }

  -- A run of the loop that hands a task out.
  pub scan-Pick :
      (ids : List String) (w : World B) {out : AgentTask}
      → (scan B agent now ids w).1 ≡ got out
      → Pick B agent now ids w (scan B agent now ids w).0 out
  unfolding scan
  scan-Pick [] w h = absurd (cc)
  scan-Pick (id ∷ ids) w h = elim (Loaded-cases (load_task B id w)) [
    | inl e ↦
        let step = scan-absent B agent now id ids w e in
        rw step (
          Pick-skip id ids w _ (λ (t, f, _). cc)
            (Pick-unqueue id ids w _ (scan-Pick ids (unqueue B id w) (rw step at h))))
    | inr (inl e) ↦ absurd (cc (scan-invalid B agent now id ids w e))
    | inr (inr (t, e)) ↦ elim (Verdict-cases (verdict B agent t w)) [
      | inl v ↦
          let step = scan_skip B agent now id ids w e v in
          rw step
            (Pick-skip id ids w _ (λ (u, f, g). ground arith) (scan-Pick ids w (rw step at h)))
      | inr (inl v) ↦ absurd (cc (scan_raise B agent now id ids w e v))
      | inr (inr v) ↦
          let step = scan-start B agent now id ids w e v in
          rw step (Pick-start id ids t w e v (rw step at h))
    ]
  ]

  hands_out : (id : String) (t : AgentTask) (w : World B) → (start B id now t w).1 ≢ nothing
  unfolding start
  hands_out id t w h = cc

  -- A run of the loop that ends with nothing has passed over every task that it could not start.
  pub scan_nothing :
      (ids : List String) (w : World B)
      → (scan B agent now ids w).1 ≡ nothing
      → All (λ x. ¬ Startable B w agent x) ids
  scan_nothing [] w h = tt
  scan_nothing (id ∷ ids) w h = elim (Loaded-cases (load_task B id w)) [
    | inl e ↦ (
      λ (t, f, _). cc,
      Startable-unqueue id w ids
          (scan_nothing ids (unqueue B id w) (rw (scan-absent B agent now id ids w e) at h)),
    )
    | inr (inl e) ↦ absurd (cc (scan-invalid B agent now id ids w e))
    | inr (inr (t, e)) ↦ elim (Verdict-cases (verdict B agent t w)) [
      | inl v ↦ (
        λ (u, f, g). ground arith,
        scan_nothing ids w (rw (scan_skip B agent now id ids w e v) at h),
      )
      | inr (inl v) ↦ absurd (cc (scan_raise B agent now id ids w e v))
      | inr (inr v) ↦ absurd (hands_out id t w (rw (scan-start B agent now id ids w e v) at h))
    ]
  ]
