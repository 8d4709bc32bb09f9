-- ===== src/Trading/Supervisor/Isolation.antt =====
-- What a restart and a stop of all workers leave. (supervisor.py)
use clartt_capital.Common.{
  ℕ, ◌<◌, ◌≡◌, refl, ◌∙◌, Bool, true, false, none, some, String, List, [], ◌∷◌, str_eq, eq_iff,
  lookup, keys, lookup-put, lookup-delete, Bool-cases, Option-cases, inl, inr, arith, if◌then◌else◌,
}
use clartt_capital.Breaker.{Outcome, Outcome-cases}
use clartt_capital.Trading.Supervisor.{
  Supervisor, Step, init, stop_worker_unlocked, stop_worker, enlist, start_worker, restart_worker,
  stop_each, stop_all, run,
}
use clartt_capital.Trading.Supervisor.OneWorker.{
  InCharge, run-InCharge, init-InCharge, stop-InCharge, stop_each-InCharge,
}

module _ {A : Type 0} where
  -- The worker of an account that nothing has touched.
  abbrev pub Untouched : String → ℕ → Supervisor A → Supervisor A → Type 0
  Untouched j h s s' =
      (lookup j s'.workers ≡ some h) × (s'.told h ≡ false) × (s'.running h ≡ s.running h)

  stop-Untouched :
      (id j : String) (h : ℕ) (s : Supervisor A)
      → InCharge s
      → str_eq id j ≡ false
      → lookup j s.workers ≡ some h
      → Untouched j h s (stop_worker_unlocked id s)
  unfolding stop_worker_unlocked
  stop-Untouched id j h s (t, k, c) n e = elim (Option-cases (lookup id s.workers)) [
    | inl f ↦ rw (f, stop_worker_unlocked) (e, (k j h e).1, refl)
    | inr (g, f) ↦
        rw (f, stop_worker_unlocked)
          (
            ground (arith, lookup-delete id j s.workers),
            ground (arith, k j h e, k id g f, eq_iff id j),
            refl,
          )
  ]

  enlist-Untouched :
      (id j : String) (a : A) (h : ℕ) (s s' : Supervisor A)
      → InCharge s'
      → str_eq id j ≡ false
      → Untouched j h s s'
      → Untouched j h s (enlist id a s')
  unfolding enlist
  enlist-Untouched id j a h s s' (t, k, c) n (e, f, g) = (
    ground (arith, lookup-put id j s'.made s'.workers),
    ground (arith, k j h e),
    ground (arith, k j h e),
  )

  module _ (factory : A → Outcome (Unit {0})) where
    start-Untouched :
        (id j : String) (a : A) (h : ℕ) (s : Supervisor A)
        → InCharge s
        → str_eq id j ≡ false
        → lookup j s.workers ≡ some h
        → Untouched j h s (start_worker factory id a s).0
    unfolding start_worker
    start-Untouched id j a h s q n e =
        let u = stop-Untouched id j h s q n e in
        elim (Outcome-cases (factory a)) [
          | inl (_, f) ↦
              rw (f, start_worker)
                (enlist-Untouched id j a h s (stop_worker_unlocked id s) (stop-InCharge id s q) n u)
          | inr (_, f) ↦ rw (f, start_worker) u
        ]

    -- After any steps, restarting the worker of one account leaves the worker of another account in
    -- charge, not told to stop and running as before, also when the factory raises.
    pub restart_isolated :
        (xs : List (Step A)) (id j : String) (h : ℕ)
        → let s = run factory xs init in
          str_eq id j ≡ false
          → lookup j s.workers ≡ some h
          → Untouched j h s (restart_worker factory id s).0
    unfolding restart_worker
    restart_isolated xs id j h n e =
        let s = run factory xs init in
        let q = run-InCharge factory xs init (init-InCharge A) in
        elim (Option-cases (lookup id s.accounts)) [
          | inl f ↦ rw (f, restart_worker) (e, (q.1 j h e).1, refl)
          | inr (a, f) ↦ rw (f, restart_worker) (start-Untouched id j a h s q n e)
        ]

abbrev among : String → List String → Bool
among j [] = false
among j (id ∷ ids) = if str_eq id j then true else among j ids

absent : (j : String) (d : List (String × ℕ)) → among j (keys d) ≡ false → lookup j d ≡ none
absent j [] h = refl
absent j ((k, v) ∷ d) h = ground (arith, absent j d)

empty : (d : List (String × ℕ)) → ((j : String) → lookup j d ≡ none) → d ≡ []
empty [] h = refl
empty ((k, v) ∷ d) h = ground (arith, h k, eq_iff k k)

module _ {A : Type 0} where
  lookup_stopped :
      (id j : String) (s : Supervisor A)
      → lookup j (stop_worker_unlocked id s).workers
        ≡ (if str_eq id j then none else lookup j s.workers)
  unfolding stop_worker_unlocked
  lookup_stopped id j s = elim (Option-cases (lookup id s.workers)) [
    | inl f ↦ rw (f, stop_worker_unlocked) (ground (arith, eq_iff id j))
    | inr (g, f) ↦ rw (f, stop_worker_unlocked) (lookup-delete id j s.workers)
  ]

  lookup-stop_each :
      (ids : List String) (j : String) (s : Supervisor A)
      → lookup j (stop_each ids s).workers ≡ (if among j ids then none else lookup j s.workers)
  unfolding stop_each stop_worker
  lookup-stop_each [] j s = refl
  lookup-stop_each (id ∷ ids) j s =
      ground (arith, lookup-stop_each ids j (stop_worker_unlocked id s), lookup_stopped id j s)

  nothing_left : (s : Supervisor A) (j : String) → lookup j (stop_all s).workers ≡ none
  unfolding stop_all
  nothing_left s j = ground (arith, lookup-stop_each (keys s.workers) j s, absent j s.workers)

  -- After any steps, stopping all workers empties the supervisor, and every worker that was ever made
  -- has been told to stop.
  pub stop_all_stops :
      (factory : A → Outcome (Unit {0})) (xs : List (Step A))
      → let s = stop_all (run factory xs init) in
        (s.workers ≡ []) × (s.threads ≡ []) × ((h : ℕ) → h < s.made → s.told h ≡ true)
  unfolding stop_all
  stop_all_stops factory xs =
      let s = run factory xs init in
      let (t, k, c) =
        stop_each-InCharge (keys s.workers) s (run-InCharge factory xs init (init-InCharge A)) in
      let none_left = empty (stop_all s).workers (nothing_left s) in
      (
        none_left,
        t ∙ none_left,
        (λ h l. ground (
          arith,
          Bool-cases ((stop_all s).told h),
          c h l,
          nothing_left s ((stop_all s).owner h),
        )),
      )
