-- ===== src/Trading/Supervisor.antt =====
-- packages/execution-engine/src/worker/supervisor.py: `WorkerSupervisor`. A worker and its thread are
-- made together, so one number stands for both: the address of the worker. Every method that holds the
-- lock is one step; `restart_worker` and `stop_all` hold it several times, and other steps may come
-- between.
mod OneWorker
mod Isolation
mod Tests
use clartt_capital.Common.{
  ℕ, ◌+◌, Bool, true, false, not, Option, none, some, String, List, [], ◌∷◌, ◌==◌, if◌then◌else◌,
  lookup, put, delete, keys,
}
use clartt_capital.Breaker.{Outcome, returned, raised}

-- `owner`, `told` and `running` are the fields `account_id`, `_stop_event` and `_running` of the
-- workers, of which there are `made`.
pub record Supervisor (A : Type 0) : Type 0 where
  pub workers : List (String × ℕ)
  pub threads : List (String × ℕ)
  pub accounts : List (String × A)
  pub made : ℕ
  pub owner : ℕ → String
  pub told : ℕ → Bool
  pub running : ℕ → Bool

abbrev pub set {ℓ} : {B : Type ℓ} → ℕ → B → (ℕ → B) → ℕ → B
set h b f k = if h == k then b else f k

unfoldable pub running_of : (ℕ → Bool) → List (String × ℕ) → List String
running_of running [] = []
running_of running ((id, h) ∷ ws) =
    let rest = running_of running ws in if running h then id ∷ rest else rest

module _ {A : Type 0} where
  unfoldable pub init : Supervisor A
  init = record {
    workers = [];
    threads = [];
    accounts = [];
    made = 0;
    owner = λ _. "";
    told = λ _. false;
    running = λ _. false;
  }

  unfoldable pub active_workers : Supervisor A → List String
  unfolding running_of
  active_workers s = running_of s.running s.workers

  unfoldable pub all_workers : Supervisor A → List String
  all_workers s = keys s.workers

  -- `_stop_worker_unlocked`: the join of the thread waits five seconds at most, so the thread may
  -- still run when the worker is forgotten.
  unfoldable pub stop_worker_unlocked : String → Supervisor A → Supervisor A
  stop_worker_unlocked id s = elim (lookup id s.workers) [
    | none ↦ s
    | some h ↦ record s {
      workers = delete id s.workers;
      threads = delete id s.threads;
      told = set h true s.told;
    }
  ]

  unfoldable pub stop_worker : String → Supervisor A → Supervisor A
  unfolding stop_worker_unlocked
  stop_worker id s = stop_worker_unlocked id s

  -- The worker that the factory makes, with its thread, under the account's id.
  unfoldable pub enlist : (account_id : String) → A → Supervisor A → Supervisor A
  enlist id a s = record s {
    workers = put id s.made s.workers;
    threads = put id s.made s.threads;
    accounts = put id a s.accounts;
    made = s.made + 1;
    owner = set s.made id s.owner;
    told = set s.made false s.told;
    running = set s.made false s.running;
  }

  -- The factory may raise, when the worker before is stopped already.
  unfoldable pub start_worker :
      (worker_factory : A → Outcome (Unit {0}))
      → (account_id : String) → A
      → Supervisor A
      → Supervisor A × Outcome (Unit {0})
  unfolding stop_worker_unlocked enlist
  start_worker factory id a s =
      let s' = stop_worker_unlocked id s in
      elim (factory a) [ raised e ↦ (s', raised e) | returned _ ↦ (enlist id a s', returned tt) ]

  -- What `restart_worker` does when nothing comes between.
  unfoldable pub restart_worker :
      (worker_factory : A → Outcome (Unit {0}))
      → (account_id : String) → Supervisor A
      → Supervisor A × Outcome (Unit {0})
  unfolding start_worker
  restart_worker factory id s = elim (lookup id s.accounts) [
    | none ↦ (s, returned tt)
    | some a ↦ start_worker factory id a s
  ]

  unfoldable pub stop_each : List String → Supervisor A → Supervisor A
  unfolding stop_worker
  stop_each [] s = s
  stop_each (id ∷ ids) s = stop_each ids (stop_worker id s)

  unfoldable pub stop_all : Supervisor A → Supervisor A
  unfolding stop_each
  stop_all s = stop_each (keys s.workers) s

  unfoldable pub is_worker_alive : (alive : ℕ → Bool) → String → Supervisor A → Bool
  is_worker_alive alive id s = elim (lookup id s.threads) [ none ↦ false | some h ↦ alive h ]

  -- `_run_worker`: the thread of a worker enters the loop, and leaves it for good, by a stop or by a
  -- crash, which is only logged.
  unfoldable pub enter : ℕ → Supervisor A → Supervisor A
  enter h s = record s { running = set h true s.running }

  unfoldable pub leave : ℕ → Supervisor A → Supervisor A
  leave h s = record s { running = set h false s.running }

-- The steps, in the order in which they take the lock.
pub data Step (A : Type 0) : Type 0 where
  start : (account_id : String) → A → Step A
  stop restart : (account_id : String) → Step A
  stop_every : Step A
  entered left : ℕ → Step A

module _ {A : Type 0} (factory : A → Outcome (Unit {0})) where
  unfoldable pub step : Step A → Supervisor A → Supervisor A
  unfolding start_worker stop_worker restart_worker stop_all enter leave
  step (start id a) s = (start_worker factory id a s).0
  step (stop id) s = stop_worker id s
  step (restart id) s = (restart_worker factory id s).0
  step stop_every s = stop_all s
  step (entered h) s = enter h s
  step (left h) s = leave h s

  unfoldable pub run : List (Step A) → Supervisor A → Supervisor A
  unfolding step
  run [] s = s
  run (x ∷ xs) s = run xs (step x s)
