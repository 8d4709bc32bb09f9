-- ===== src/Redis/Values.antt =====
-- GET, SET and DEL on string keys.
use clartt_capital.Common.{◌≡◌, refl, String, Option, none, some, str_eq, if◌then◌else◌}

pub record RedisValues : Type 1 where
  pub Db : Type 0
  pub get : String → Db → Option String
  pub set : String → String → Db → Db
  pub delete : String → Db → Db

pub record IsLawful (R : RedisValues) : Type 0 where
  pub get-set :
      (k j v : String) (d : R.Db)
      → R.get k (R.set j v d) ≡ (if str_eq j k then some v else R.get k d)
  pub get-delete :
      (k j : String) (d : R.Db) → R.get k (R.delete j d) ≡ (if str_eq j k then none else R.get k d)

-- A database that is a function from keys.
abbrev pub memory : RedisValues
memory = record {
  Db = String → Option String;
  get = λ k d. d k;
  set = λ j v d k. if str_eq j k then some v else d k;
  delete = λ j d k. if str_eq j k then none else d k;
}

abbrev pub memory-IsLawful : IsLawful memory
memory-IsLawful = record { get-set = λ k j v d. refl; get-delete = λ k j d. refl }
