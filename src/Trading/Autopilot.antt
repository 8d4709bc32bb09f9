-- ===== src/Trading/Autopilot.antt =====
-- packages/execution-engine/src/autopilot/autopilot_monitor.py: `AutopilotMonitor`. A callback is a
-- name, and calling it is recorded: one that raises is caught. Calls of the monitor and messages on
-- the channel come as one sequence of inputs, which is what its lock makes of them.
pub mod Consent
mod Hearing
mod Tests
use clartt_capital.Common.{
  Bool, true, false, not, ◌||◌, Option, none, some, List, [], ◌∷◌, ◌++◌, map, String, str_eq,
  if◌then◌else◌, lookup, put,
}

-- What GET of the key ends in: a failure of the connection, or the value if there is one.
pub data Answer : Type 0 where
  failed : Answer
  value : Option String → Answer

-- What `json.loads` makes of a message: nothing, a value that is no object, or the entries
-- "accountId" and "enabled", where they are there. The publisher writes a text and a Boolean.
pub data Payload : Type 0 where
  invalid : Payload
  fields : (account_id : Option String) → (enabled : Option Bool) → Payload

-- A call of a callback.
pub record Call : Type 0 where
  pub callback : String
  pub account_id : String
  pub enabled : Bool

pub record Monitor : Type 0 where
  pub states : List (String × Bool)
  pub callbacks : List String
  pub stop_event : Bool
  pub listening : Bool
  pub called : List Call

unfoldable pub init : Monitor
init = record { states = []; callbacks = []; stop_event = false; listening = false; called = [] }

abbrev pub is_enabled_value : Answer → Bool
is_enabled_value failed = false
is_enabled_value (value none) = false
is_enabled_value (value (some text)) = str_eq text "enabled"

-- A key that cannot be read is remembered as one that is disabled.
unfoldable pub load_state : Answer → String → Monitor → Monitor × Bool
load_state answer id m =
    (record m { states = put id (is_enabled_value answer) m.states }, is_enabled_value answer)

unfoldable pub is_enabled : Answer → String → Monitor → Monitor × Bool
unfolding load_state
is_enabled answer id m = elim (lookup id m.states) [
  | none ↦ load_state answer id m
  | some b ↦ (m, b)
]

unfoldable pub subscribe : String → Monitor → Monitor
subscribe callback m =
    let added = record m { callbacks = m.callbacks ++ (callback ∷ []) } in
    if m.listening then added else record added { stop_event = false; listening = true }

unfoldable pub stop : Monitor → Monitor
stop m = record m { stop_event = true }

abbrev pub differs : Option Bool → Bool → Bool
differs none b = true
differs (some true) b = not b
differs (some false) b = b

-- The message of an account, with the loop over the callbacks.
unfoldable pub announce : String → Bool → Monitor → Monitor
announce id enabled m =
    let m' = record m { states = put id enabled m.states } in
    let calls =
      map (λ c. record { callback = c; account_id = id; enabled = enabled }) m.callbacks in
    if differs (lookup id m.states) enabled then record m' { called = m.called ++ calls } else m'

-- An account id that is missing is the empty text, and what is not enabled is disabled.
unfoldable pub handle : Payload → Monitor → Monitor
unfolding announce
handle invalid m = m
handle (fields none enabled) m = m
handle (fields (some id) none) m = if str_eq id "" then m else announce id false m
handle (fields (some id) (some enabled)) m = if str_eq id "" then m else announce id enabled m

-- A message that the channel delivers, of type "message" or of another type.
unfoldable pub deliver : (is_message : Bool) → Payload → Monitor → Monitor
unfolding handle
deliver is_message p m =
    if m.listening
    then if m.stop_event
      then record m { listening = false }
      else if is_message
      then handle p m
      else m
    else m

pub data Input : Type 0 where
  message : (is_message : Bool) → Payload → Input
  asked : Answer → (account_id : String) → Input
  subscribed : (callback : String) → Input
  stopped : Input
  -- The connection of the listener fails, which ends its thread.
  lost : Input

unfoldable pub step : Input → Monitor → Monitor
unfolding deliver is_enabled subscribe stop
step (message is_message p) m = deliver is_message p m
step (asked answer id) m = (is_enabled answer id m).0
step (subscribed callback) m = subscribe callback m
step stopped m = stop m
step lost m = record m { listening = false }

unfoldable pub run : List Input → Monitor → Monitor
run [] m = m
run (i ∷ is) m = run is (step i m)
