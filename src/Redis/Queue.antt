-- ===== src/Redis/Queue.antt =====
-- GET and SET, a sorted set (ZADD, ZREM, ZRANGE key 0 -1) and a list (RPUSH), as the task queue
-- calls them. `Text` is what a key or a list holds, and members are strings. A score is a double, which at the size of these scores is a whole number.
pub mod Memory
use clartt_capital.Common.{
  ℕ, ◌≡◌, ◌≢◌, ◌≤◌, String, Bool, true, false, Option, none, some, List, [], ◌∷◌, ◌++◌, ◌||◌,
  str_eq, if◌then◌else◌, All,
}

pub record RedisQueue : Type 1 where
  pub Db : Type 0
  pub Text : Type 0
  pub get : String → Db → Option Text
  pub set : String → Text → Db → Db
  pub zadd : String → String → ℕ → Db → Db
  pub zrem : String → String → Db → Db
  pub zscore : String → String → Db → Option ℕ
  pub zrange : String → Db → List String
  pub rpush : String → Text → Db → Db
  pub lrange : String → Db → List Text

abbrev pub member : String → List String → Bool
member a [] = false
member a (b ∷ bs) = str_eq b a || member a bs

abbrev pub is_some {ℓ} : {A : Type ℓ} → Option A → Bool
is_some none = false
is_some (some a) = true

-- The score of the first is at most that of the second, where both have one.
abbrev pub ScoreLe : Option ℕ → Option ℕ → Type 0
ScoreLe (some a) (some b) = a ≤ b
ScoreLe _ _ = Unit

-- The members are in ascending order of their scores.
abbrev pub Ascending : (String → Option ℕ) → List String → Type 0
Ascending score [] = Unit
Ascending score (a ∷ rest) = All (λ b. ScoreLe (score a) (score b)) rest × Ascending score rest

pub record IsLawful (R : RedisQueue) : Type 0 where
  pub get-set :
      (k j : String) (v : R.Text) (d : R.Db)
      → R.get k (R.set j v d) ≡ (if str_eq j k then some v else R.get k d)
  pub get-zadd : (k j m : String) (s : ℕ) (d : R.Db) → j ≢ k → R.get k (R.zadd j m s d) ≡ R.get k d
  pub get-zrem : (k j m : String) (d : R.Db) → j ≢ k → R.get k (R.zrem j m d) ≡ R.get k d
  pub get-rpush :
      (k j : String) (v : R.Text) (d : R.Db) → j ≢ k → R.get k (R.rpush j v d) ≡ R.get k d
  pub zscore-zadd :
      (k m n : String) (s : ℕ) (d : R.Db)
      → R.zscore k m (R.zadd k n s d) ≡ (if str_eq n m then some s else R.zscore k m d)
  pub zscore-zrem :
      (k m n : String) (d : R.Db)
      → R.zscore k m (R.zrem k n d) ≡ (if str_eq n m then none else R.zscore k m d)
  pub zscore-set :
      (k m j : String) (v : R.Text) (d : R.Db) → j ≢ k → R.zscore k m (R.set j v d) ≡ R.zscore k m d
  pub zscore-rpush :
      (k m j : String) (v : R.Text) (d : R.Db)
      → j ≢ k
      → R.zscore k m (R.rpush j v d) ≡ R.zscore k m d
  pub member-zrange : (k m : String) (d : R.Db) → member m (R.zrange k d) ≡ is_some (R.zscore k m d)
  pub zrange_ascending : (k : String) (d : R.Db) → Ascending (λ m. R.zscore k m d) (R.zrange k d)
  pub lrange-rpush :
      (k : String) (v : R.Text) (d : R.Db) → R.lrange k (R.rpush k v d) ≡ R.lrange k d ++ (v ∷ [])
  pub lrange-set :
      (k j : String) (v : R.Text) (d : R.Db) → j ≢ k → R.lrange k (R.set j v d) ≡ R.lrange k d
