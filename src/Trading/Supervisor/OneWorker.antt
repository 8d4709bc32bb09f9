-- ===== src/Trading/Supervisor/OneWorker.antt =====
-- At most one worker of an account is in charge of it. (supervisor.py)
use clartt_capital.Common.{
  ℕ, ◌<◌, ◌≡◌, refl, ap, false, none, some, String, List, [], ◌∷◌, eq_iff, lookup, put, delete,
  keys, lookup-put, lookup-delete, Option-cases, inl, inr, arith,
}
use clartt_capital.Breaker.{Outcome, Outcome-cases}
use clartt_capital.Trading.Supervisor.{
  Supervisor, Step, start, stop, restart, stop_every, entered, left, init, stop_worker_unlocked,
  stop_worker, enlist, start_worker, restart_worker, stop_each, stop_all, enter, leave, step, run,
}

module _ {A : Type 0} where
  -- The workers that were not told to stop are those that the supervisor keeps, each under its
  -- account, and so are their threads.
  abbrev pub InCharge : Supervisor A → Type 0
  InCharge s =
      (s.threads ≡ s.workers)
      × ((id : String) (h : ℕ)
          → lookup id s.workers ≡ some h
          → (h < s.made) × (s.told h ≡ false) × (s.owner h ≡ id))
      × ((h : ℕ) → h < s.made → s.told h ≡ false → lookup (s.owner h) s.workers ≡ some h)

  pub stop-InCharge :
      (id : String) (s : Supervisor A) → InCharge s → InCharge (stop_worker_unlocked id s)
  unfolding stop_worker_unlocked
  stop-InCharge id s (t, k, c) = elim (Option-cases (lookup id s.workers)) [
    | inl n ↦ rw (n, stop_worker_unlocked) (t, k, c)
    | inr (h, e) ↦
        rw (e, stop_worker_unlocked)
          (
            ap (delete id) t,
            (λ j i f. ground (arith, lookup-delete id j s.workers, eq_iff id j, k j i, k id h)),
            (λ i l f. ground (
              arith,
              lookup-delete id (s.owner i) s.workers,
              eq_iff id (s.owner i),
              c i,
              k id h,
            )),
          )
  ]

  enlist-InCharge :
      (id : String) (a : A) (s : Supervisor A)
      → lookup id s.workers ≡ none
      → InCharge s
      → InCharge (enlist id a s)
  unfolding enlist
  enlist-InCharge id a s n (t, k, c) = (
    ap (put id s.made) t,
    (λ j i f. ground (arith, lookup-put id j s.made s.workers, eq_iff id j, k j i)),
    (λ i l f. ground (
      arith,
      lookup-put id (s.owner i) s.made s.workers,
      lookup-put id id s.made s.workers,
      eq_iff id id,
      eq_iff id (s.owner i),
      c i,
    )),
  )

  pub forgotten :
      (id : String) (s : Supervisor A) → lookup id (stop_worker_unlocked id s).workers ≡ none
  unfolding stop_worker_unlocked
  forgotten id s = elim (Option-cases (lookup id s.workers)) [
    | inl n ↦ rw (n, stop_worker_unlocked) n
    | inr (h, e) ↦
        rw (e, stop_worker_unlocked) (ground (arith, lookup-delete id id s.workers, eq_iff id id))
  ]

  pub stop_each-InCharge :
      (ids : List String) (s : Supervisor A) → InCharge s → InCharge (stop_each ids s)
  unfolding stop_each stop_worker
  stop_each-InCharge [] s h = h
  stop_each-InCharge (id ∷ ids) s h =
      stop_each-InCharge ids (stop_worker_unlocked id s) (stop-InCharge id s h)

pub init-InCharge : (A : Type 0) → InCharge (init {A = A})
unfolding init
init-InCharge A = (refl, (λ j i f. ground arith), (λ i l f. ground arith))

module _ {A : Type 0} (factory : A → Outcome (Unit {0})) where
  start-InCharge :
      (id : String) (a : A) (s : Supervisor A)
      → InCharge s
      → InCharge (start_worker factory id a s).0
  unfolding start_worker
  start-InCharge id a s h =
      let h' = stop-InCharge id s h in
      elim (Outcome-cases (factory a)) [
        | inl (_, e) ↦
            rw (e, start_worker)
              (enlist-InCharge id a (stop_worker_unlocked id s) (forgotten id s) h')
        | inr (_, e) ↦ rw (e, start_worker) h'
      ]

  restart-InCharge :
      (id : String) (s : Supervisor A) → InCharge s → InCharge (restart_worker factory id s).0
  unfolding restart_worker
  restart-InCharge id s h = elim (Option-cases (lookup id s.accounts)) [
    | inl e ↦ rw (e, restart_worker) h
    | inr (a, e) ↦ rw (e, restart_worker) (start-InCharge id a s h)
  ]

  step-InCharge : (x : Step A) (s : Supervisor A) → InCharge s → InCharge (step factory x s)
  unfolding step stop_worker stop_all enter leave
  step-InCharge (start id a) s h = start-InCharge id a s h
  step-InCharge (stop id) s h = stop-InCharge id s h
  step-InCharge (restart id) s h = restart-InCharge id s h
  step-InCharge stop_every s h = stop_each-InCharge (keys s.workers) s h
  step-InCharge (entered i) s h = h
  step-InCharge (left i) s h = h

  pub run-InCharge :
      (xs : List (Step A)) (s : Supervisor A) → InCharge s → InCharge (run factory xs s)
  unfolding run
  run-InCharge [] s h = h
  run-InCharge (x ∷ xs) s h = run-InCharge xs (step factory x s) (step-InCharge x s h)

  -- After any steps, in any order, of two workers of one account that were both not told to stop
  -- neither is without the other: they are the same worker, the one that the supervisor keeps.
  pub run_one_worker :
      (xs : List (Step A)) (g h : ℕ)
      → let s = run factory xs init in
        g < s.made
        → h < s.made
        → s.told g ≡ false
        → s.told h ≡ false
        → s.owner g ≡ s.owner h
        → (g ≡ h) × (lookup (s.owner g) s.workers ≡ some g)
  run_one_worker xs g h lg lh tg th o =
      let (_, _, c) = run-InCharge xs init (init-InCharge A) in ground (arith, c g lg tg, c h lh th)
