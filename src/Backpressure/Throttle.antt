-- ===== src/Backpressure/Throttle.antt =====
-- When the publisher is held back. (backpressure_monitor.py, `should_publish`)
use clartt_capital.Common.{
  ℕ, ◌≡◌, ◌<◌, refl, ap, subst, sym, ◌∙◌, Bool, true, false, Option, none, some, List, [], ◌∷◌,
  String, str_eq, map, All, Bool-cases, eq_iff, ◌||◌, inl, inr, if◌then◌else◌, leb, not, arith,
}
use clartt_capital.Backpressure.{
  BackpressureMonitor, Group, field, is_named, count_of, lag_in, get_consumer_lag, should_publish,
  polls,
}

not_le : (a b : ℕ) → b < a → leb a b ≡ false
not_le a b h = ground arith

-- The state stays as it is.
stays_on : (b x y : Bool) → b ≡ true → x ≡ true → (if b then x else y) ≡ b
stays_on b x y h k = ground arith

stays_off : (b x y : Bool) → b ≡ false → y ≡ false → (if b then x else y) ≡ b
stays_off b x y h k = ground arith

held :
    (parse_int : String → Option ℕ) (r : Option (List Group)) (m : BackpressureMonitor)
    → m.paused ≡ true
    → m.low_water_mark < get_consumer_lag parse_int r m
    → should_publish parse_int r m ≡ (m, false)
unfolding should_publish
held parse_int r m p h =
    let lag = get_consumer_lag parse_int r m in
    let e =
      stays_on m.paused (not (leb lag m.low_water_mark)) (leb m.high_water_mark lag) p
        (ap not (not_le lag m.low_water_mark h)) in
    ap (λ b. (record m { paused = b }, not b)) e ∙ ap (λ b. (m, not b)) p

going :
    (parse_int : String → Option ℕ) (r : Option (List Group)) (m : BackpressureMonitor)
    → m.paused ≡ false
    → get_consumer_lag parse_int r m < m.high_water_mark
    → should_publish parse_int r m ≡ (m, true)
unfolding should_publish
going parse_int r m p h =
    let lag = get_consumer_lag parse_int r m in
    let e =
      stays_off m.paused (not (leb lag m.low_water_mark)) (leb m.high_water_mark lag) p
        (not_le m.high_water_mark lag h) in
    ap (λ b. (record m { paused = b }, not b)) e ∙ ap (λ b. (m, not b)) p

stay_held :
    (parse_int : String → Option ℕ) (rs : List (Option (List Group))) (m : BackpressureMonitor)
    → m.paused ≡ true
    → All (λ r. m.low_water_mark < get_consumer_lag parse_int r m) rs
    → polls parse_int rs m ≡ map (λ r. false) rs
unfolding polls
stay_held parse_int [] m p h = refl
stay_held parse_int (r ∷ rs) m p (l, h) =
    ap (λ s. s.1 ∷ polls parse_int rs s.0) (held parse_int r m p l)
    ∙ ap (λ bs. false ∷ bs) (stay_held parse_int rs m p h)

keep_going :
    (parse_int : String → Option ℕ) (rs : List (Option (List Group))) (m : BackpressureMonitor)
    → m.paused ≡ false
    → All (λ r. get_consumer_lag parse_int r m < m.high_water_mark) rs
    → polls parse_int rs m ≡ map (λ r. true) rs
unfolding polls
keep_going parse_int [] m p h = refl
keep_going parse_int (r ∷ rs) m p (l, h) =
    ap (λ s. s.1 ∷ polls parse_int rs s.0) (going parse_int r m p l)
    ∙ ap (λ bs. true ∷ bs) (keep_going parse_int rs m p h)

-- A paused publisher stays held back while the lag is above the low mark, and one that is not paused
-- goes on while the lag is below the high mark, however often it asks and wherever the lag moves
-- between the marks.
pub polls_hold :
    (parse_int : String → Option ℕ) (rs : List (Option (List Group))) (m : BackpressureMonitor)
    → (m.paused ≡ true
        → All (λ r. m.low_water_mark < get_consumer_lag parse_int r m) rs
        → polls parse_int rs m ≡ map (λ r. false) rs)
      × (m.paused ≡ false
          → All (λ r. get_consumer_lag parse_int r m < m.high_water_mark) rs
          → polls parse_int rs m ≡ map (λ r. true) rs)
polls_hold parse_int rs m = (stay_held parse_int rs m, keep_going parse_int rs m)

-- The fields of a group in the reply of XINFO GROUPS, as Redis documents them.
abbrev pub is_redis_field : String → Bool
is_redis_field k =
    str_eq k "name"
    || str_eq k "consumers"
    || str_eq k "pending"
    || str_eq k "last-delivered-id"
    || str_eq k "entries-read"
    || str_eq k "lag"

abbrev pub IsDocumented : Group → Type 0
IsDocumented = All (λ f. is_redis_field f.0 ≡ true)

no_count : (g : Group) → IsDocumented g → field "pel-count" g ≡ none
unfolding field
no_count [] h = refl
no_count ((k, v) ∷ g) (d, h) = elim (Bool-cases (str_eq k "pel-count")) [
  | inl e ↦ let same = ap is_redis_field ((eq_iff k "pel-count").0 e) in ground arith
  | inr e ↦ rw e (no_count g h)
]

no_lag :
    (parse_int : String → Option ℕ) (name : String) (gs : List Group)
    → All IsDocumented gs
    → lag_in parse_int name gs ≡ 0
unfolding lag_in
no_lag parse_int name [] h = refl
no_lag parse_int name (g ∷ gs) (d, h) =
    either (is_named name (field "name" g)) _ _ (ap (count_of parse_int) (no_count g d))
      (no_lag parse_int name gs h)
  where
    either : (b : Bool) (x y : ℕ) → x ≡ 0 → y ≡ 0 → (if b then x else y) ≡ 0
    either true x y p q = p
    either false x y p q = q

no_lag_of :
    (parse_int : String → Option ℕ) (m : BackpressureMonitor) (r : List Group)
    → All IsDocumented r
    → get_consumer_lag parse_int (some r) m ≡ 0
unfolding get_consumer_lag
no_lag_of parse_int m r d = no_lag parse_int m.group_name r d

-- A monitor with a positive high mark that is not paused never holds the publisher back, whatever the
-- groups have pending, when every reply has the fields that Redis documents: the field that the
-- monitor reads is not among them.
pub never_held_back :
    (parse_int : String → Option ℕ) (rs : List (List Group)) (m : BackpressureMonitor)
    → m.paused ≡ false
    → 0 < m.high_water_mark
    → All (All IsDocumented) rs
    → polls parse_int (map some rs) m ≡ map (λ r. true) rs
unfolding polls
never_held_back parse_int [] m p z h = refl
never_held_back parse_int (r ∷ rs) m p z (d, h) =
    ap (λ s. s.1 ∷ polls parse_int (map some rs) s.0)
      (going parse_int (some r) m p
        (subst (λ n. n < m.high_water_mark) (sym (no_lag_of parse_int m r d)) z))
    ∙ ap (λ bs. true ∷ bs) (never_held_back parse_int rs m p z h)
