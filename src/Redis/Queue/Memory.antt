-- ===== src/Redis/Queue/Memory.antt =====
-- A database in memory that keeps the laws of the task queue's commands.
use clartt_capital.Common.{
  ℕ, ◌≡◌, ◌≤◌, refl, String, false, Option, none, some, List, [], ◌∷◌, ◌++◌, ◌||◌, str_eq, eq_iff,
  eq_refl, leb, if◌then◌else◌, All, arith, Bool-cases, inl, inr,
}
use clartt_capital.Redis.Queue.{RedisQueue, IsLawful, member, is_some, ScoreLe, Ascending}

-- A sorted set: its members, and the score of each.
pub record ZSet : Type 0 where
  pub members : List String
  pub score : String → ℕ

pub record Db (Text : Type 0) : Type 0 where
  pub value : String → Option Text
  pub zset : String → ZSet
  pub list : String → List Text

without : String → List String → List String
without a [] = []
without a (b ∷ bs) = if str_eq a b then without a bs else b ∷ without a bs

place : (String → ℕ) → String → List String → List String
place score a [] = a ∷ []
place score a (b ∷ bs) = if leb (score a) (score b) then a ∷ b ∷ bs else b ∷ place score a bs

sort_by : (String → ℕ) → List String → List String
sort_by score [] = []
sort_by score (a ∷ rest) = place score a (sort_by score rest)

member-without :
    (a b : String) (bs : List String)
    → member b (without a bs) ≡ (if str_eq a b then false else member b bs)
unfolding without
member-without a b [] = ground arith
member-without a b (c ∷ bs) =
    ground (arith, eq_iff a c, eq_iff a b, eq_iff c b, member-without a b bs)

member-place :
    (score : String → ℕ) (a b : String) (bs : List String)
    → member b (place score a bs) ≡ (str_eq a b || member b bs)
unfolding place
member-place score a b [] = refl
member-place score a b (c ∷ bs) = ground (arith, member-place score a b bs)

member-sort_by :
    (score : String → ℕ) (b : String) (bs : List String) → member b (sort_by score bs) ≡ member b bs
unfolding sort_by
member-sort_by score b [] = refl
member-sort_by score b (c ∷ bs) =
    ground (arith, member-place score c b (sort_by score bs), member-sort_by score b bs)

-- The order by the plain scores.
abbrev Sorted : (String → ℕ) → List String → Type 0
Sorted score [] = Unit
Sorted score (a ∷ rest) = All (λ b. score a ≤ score b) rest × Sorted score rest

All-place :
    (score : String → ℕ) (n : ℕ) (a : String) (bs : List String)
    → n ≤ score a
    → All (λ b. n ≤ score b) bs
    → All (λ b. n ≤ score b) (place score a bs)
unfolding place
All-place score n a [] h all = (h, tt)
All-place score n a (b ∷ bs) h all = elim (Bool-cases (leb (score a) (score b))) [
  | inl le ↦ rw le (h, all)
  | inr gt ↦ rw gt (all.0, All-place score n a bs h all.1)
]

All-above :
    (score : String → ℕ) (m n : ℕ) (bs : List String)
    → m ≤ n
    → All (λ b. n ≤ score b) bs
    → All (λ b. m ≤ score b) bs
All-above score m n [] h all = tt
All-above score m n (b ∷ bs) h all = (omega (arith, all.0), All-above score m n bs h all.1)

place-Sorted :
    (score : String → ℕ) (a : String) (bs : List String)
    → Sorted score bs
    → Sorted score (place score a bs)
unfolding place
place-Sorted score a [] s = (tt, tt)
place-Sorted score a (b ∷ bs) s = elim (Bool-cases (leb (score a) (score b))) [
  | inl le ↦ rw le (
      let h : score a ≤ score b = ground arith in
      ((h, All-above score (score a) (score b) bs h s.0), s))
  | inr gt ↦ rw gt (All-place score (score b) a bs (ground arith) s.0, place-Sorted score a bs s.1)
]

sort_by-Sorted : (score : String → ℕ) (bs : List String) → Sorted score (sort_by score bs)
unfolding sort_by
sort_by-Sorted score [] = tt
sort_by-Sorted score (a ∷ rest) =
    place-Sorted score a (sort_by score rest) (sort_by-Sorted score rest)

-- `zscore` of a set.
abbrev zscore : ZSet → String → Option ℕ
zscore z m = if member m z.members then some (z.score m) else none

All-ScoreLe :
    (z : ZSet) (a : String) (bs : List String)
    → All (λ b. z.score a ≤ z.score b) bs
    → All (λ b. ScoreLe (zscore z a) (zscore z b)) bs
All-ScoreLe z a [] h = tt
All-ScoreLe z a (b ∷ bs) h = (le a b h.0, All-ScoreLe z a bs h.1)
  where
    le : (a b : String) → z.score a ≤ z.score b → ScoreLe (zscore z a) (zscore z b)
    le a b h = elim (Bool-cases (member a z.members)) [
      | inl in_a ↦ elim (Bool-cases (member b z.members)) [
        | inl in_b ↦ rw (in_a, in_b) h
        | inr not_b ↦ rw (in_a, not_b) tt
      ]
      | inr not_a ↦ rw not_a tt
    ]

Sorted-Ascending : (z : ZSet) (bs : List String) → Sorted z.score bs → Ascending (zscore z) bs
Sorted-Ascending z [] s = tt
Sorted-Ascending z (a ∷ rest) s = (All-ScoreLe z a rest s.0, Sorted-Ascending z rest s.1)

abbrev update {ℓ} : {A : Type ℓ} → String → A → (String → A) → String → A
update j v f k = if str_eq j k then v else f k

abbrev add_to : String → ℕ → ZSet → ZSet
add_to m s z = record {
  members = if member m z.members then z.members else m ∷ z.members;
  score = update m s z.score;
}

abbrev take_from : String → ZSet → ZSet
take_from m z = record { members = without m z.members; score = z.score }

unfoldable pub memory : Type 0 → RedisQueue
unfolding sort_by place without
memory Text = record {
  Db = Db Text;
  Text = Text;
  get = λ k d. d.value k;
  set = λ j v d. record d { value = update j (some v) d.value };
  zadd = λ j m s d. record d { zset = update j (add_to m s (d.zset j)) d.zset };
  zrem = λ j m d. record d { zset = update j (take_from m (d.zset j)) d.zset };
  zscore = λ k m d. zscore (d.zset k) m;
  zrange = λ k d. sort_by (d.zset k).score (d.zset k).members;
  rpush = λ j v d. record d { list = update j (d.list j ++ (v ∷ [])) d.list };
  lrange = λ k d. d.list k;
}

unfoldable pub empty : (Text : Type 0) → (memory Text).Db
unfolding memory
empty Text = record {
  value = λ k. none;
  zset = λ k. record { members = []; score = λ m. 0 };
  list = λ k. [];
}

zscore-add_to :
    (m n : String) (s : ℕ) (z : ZSet)
    → zscore (add_to n s z) m ≡ (if str_eq n m then some s else zscore z m)
zscore-add_to m n s z = ground (arith, eq_iff n m)

member-zrange_lem :
    (z : ZSet) (m : String) → member m (sort_by z.score z.members) ≡ is_some (zscore z m)
member-zrange_lem z m = ground (arith, member-sort_by z.score m z.members)

zscore-take_from :
    (m n : String) (z : ZSet) → zscore (take_from n z) m ≡ (if str_eq n m then none else zscore z m)
zscore-take_from m n z = ground (arith, member-without n m z.members)

pub memory-IsLawful : (Text : Type 0) → IsLawful (memory Text)
unfolding memory
memory-IsLawful Text = record {
  get-set = λ k j v d. refl;
  get-zadd = λ k j m s d ne. refl;
  get-zrem = λ k j m d ne. refl;
  get-rpush = λ k j v d ne. refl;
  zscore-zadd = λ k m n s d. rw (eq_refl k) (zscore-add_to m n s (d.zset k));
  zscore-zrem = λ k m n d. rw (eq_refl k) (zscore-take_from m n (d.zset k));
  zscore-set = λ k m j v d ne. refl;
  zscore-rpush = λ k m j v d ne. refl;
  member-zrange = λ k m d. member-zrange_lem (d.zset k) m;
  zrange_ascending =
      λ k d. Sorted-Ascending (d.zset k) _ (sort_by-Sorted (d.zset k).score (d.zset k).members);
  lrange-set = λ k j v d ne. refl;
  lrange-rpush = λ k v d. rw (eq_refl k) refl;
}
