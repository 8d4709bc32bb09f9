-- ===== src/Agents/Approval/Memory.antt =====
-- A database in memory that keeps the laws of the commands of approval.py.
use clartt_capital.Common.{
  ◌≡◌, refl, ap, ◌∙◌, false, Option, none, some, List, [], ◌∷◌, String, str_eq, eq_iff,
  if◌then◌else◌, lookup, put, lookup-put, arith, Bool-cases, inl, inr,
}
use clartt_capital.Breaker.{returned, raised}
use clartt_capital.Agents.Approval.Records.{Hashes}
use clartt_capital.Agents.Approval.Requests.{has_none, written, IsLawful}

pub record Db : Type 0 where
  pub hash : String → List (String × String)
  pub pending : List String

abbrev put_all : List (String × Option String) → List (String × String) → List (String × String)
put_all [] h = h
put_all ((k, none) ∷ m) h = put_all m h
put_all ((k, some v) ∷ m) h = put k v (put_all m h)

abbrev set_hash :
    String
    → List (String × String)
    → (String → List (String × String))
    → String
    → List (String × String)
set_hash k h f i = if str_eq k i then h else f i

abbrev without : String → List String → List String
without k [] = []
without k (j ∷ js) = if str_eq j k then without k js else j ∷ without k js

abbrev pub memory : Hashes
memory = record {
  Db = Db;
  hset = λ k m d.
      if has_none m
      then (d, raised "DataError")
      else (record d { hash = set_hash k (put_all m (d.hash k)) d.hash }, returned tt);
  hgetall = λ k d. d.hash k;
  sadd = λ k d. record d { pending = k ∷ without k d.pending };
  srem = λ k d. record d { pending = without k d.pending };
  smembers = λ d. d.pending;
}

lookup-put_all :
    (f : String) (m : List (String × Option String)) (h : List (String × String))
    → has_none m ≡ false
    → lookup f (put_all m h) ≡ written f m (lookup f h)
lookup-put_all f [] h n = refl
lookup-put_all f ((k, none) ∷ m) h n = ground arith
lookup-put_all f ((k, some v) ∷ m) h n =
    ground (arith, lookup-put k f v (put_all m h), lookup-put_all f m h n)

stores :
    (k i f : String) (m : List (String × Option String)) (d : Db)
    → has_none m ≡ false
    → lookup f (memory.hgetall i (memory.hset k m d).0)
      ≡ (if str_eq k i then written f m (lookup f (d.hash i)) else lookup f (d.hash i))
stores k i f m d n = elim (Bool-cases (str_eq k i)) [
  | inl e ↦
      rw (n, e)
        (lookup-put_all f m (d.hash k) n
          ∙ ap (λ x. written f m (lookup f (d.hash x))) ((eq_iff k i).0 e))
  | inr e ↦ rw (n, e) refl
]

pub memory-IsLawful : IsLawful memory
memory-IsLawful = record {
  refuses = λ k m d n. rw n refl;
  accepts = λ k m d n. rw n refl;
  stores = stores;
  srem_keeps = λ k i d. refl;
}
