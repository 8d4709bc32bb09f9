-- ===== src/Backpressure.antt =====
-- packages/strategy-engine/src/backpressure/backpressure_monitor.py: `BackpressureMonitor`. The reply
-- of XINFO GROUPS is an argument, one dictionary for each group; `parse_int` is `int` on a text, which
-- may raise. The gauge is left out.
mod Throttle
mod Tests
use clartt_capital.Common.{
  ℕ, Bool, true, false, not, Option, none, some, List, [], ◌∷◌, String, str_eq, leb, if◌then◌else◌,
}

pub data Value : Type 0 where
  text : String → Value
  number : ℕ → Value

abbrev pub Group : Type 0
Group = List (String × Value)

pub record BackpressureMonitor : Type 0 where
  pub group_name : String
  pub high_water_mark : ℕ
  pub low_water_mark : ℕ
  pub paused : Bool

unfoldable pub field : String → Group → Option Value
field key [] = none
field key ((k, v) ∷ rest) = if str_eq k key then some v else field key rest

-- A name that is no text is never the one that is looked for.
abbrev pub is_named : String → Option Value → Bool
is_named group_name none = str_eq "" group_name
is_named group_name (some (text t)) = str_eq t group_name
is_named group_name (some (number n)) = false

abbrev pub value_or_zero : Option ℕ → ℕ
value_or_zero none = 0
value_or_zero (some n) = n

-- `int(group.get("pel-count", 0))`, or 0 if that raises.
abbrev pub count_of : (String → Option ℕ) → Option Value → ℕ
count_of parse_int none = 0
count_of parse_int (some (number n)) = n
count_of parse_int (some (text t)) = value_or_zero (parse_int t)

unfoldable pub lag_in : (String → Option ℕ) → String → List Group → ℕ
unfolding field
lag_in parse_int group_name [] = 0
lag_in parse_int group_name (g ∷ groups) =
    let rest = lag_in parse_int group_name groups in
    if is_named group_name (field "name" g) then count_of parse_int (field "pel-count" g) else rest

-- `none` where the call raises.
unfoldable pub get_consumer_lag :
    (String → Option ℕ) → Option (List Group) → BackpressureMonitor → ℕ
unfolding lag_in
get_consumer_lag parse_int none m = 0
get_consumer_lag parse_int (some groups) m = lag_in parse_int m.group_name groups

unfoldable pub should_publish :
    (String → Option ℕ) → Option (List Group) → BackpressureMonitor → BackpressureMonitor × Bool
unfolding get_consumer_lag
should_publish parse_int reply m =
    let lag = get_consumer_lag parse_int reply m in
    let paused = if m.paused then not (leb lag m.low_water_mark) else leb m.high_water_mark lag in
    (record m { paused = paused }, not paused)

-- One poll after another, and the answers.
unfoldable pub polls :
    (String → Option ℕ) → List (Option (List Group)) → BackpressureMonitor → List Bool
polls parse_int [] m = []
polls parse_int (r ∷ rs) m =
    let (m', answer) = should_publish parse_int r m in answer ∷ polls parse_int rs m'
