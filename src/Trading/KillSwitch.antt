-- ===== src/Trading/KillSwitch.antt =====
-- kill_switch/kill_switch_monitor.py: `KillSwitchMonitor`. A callback is a name, and calling it is
-- recorded: one that raises is caught. Calls of the monitor and messages on the channel come as one
-- sequence of inputs, which is what its lock makes of them.
mod Listener
mod Tests
use clartt_capital.Common.{
  Bool, true, false, not, Option, none, some, List, [], ◌∷◌, ◌++◌, map, String, str_eq,
  if◌then◌else◌,
}

-- What GET of the key ends in: a failure of the connection, or the value if there is one.
pub data Answer : Type 0 where
  failed : Answer
  value : Option String → Answer

abbrev pub is_on : Option String → Bool
is_on none = false
is_on (some text) = str_eq text "active"

-- The monitor, with the listener thread: whether it runs, and its local variable `callbacks`, which
-- is unbound until the first change of state. `fired` is what it has called so far.
pub record Monitor : Type 0 where
  pub active : Bool
  pub callbacks : List String
  pub initialized : Bool
  pub stop_event : Bool
  pub listening : Bool
  pub bound : Option (List String)
  pub fired : List (String × Bool)

unfoldable pub init : Monitor
init = record {
  active = false;
  callbacks = [];
  initialized = false;
  stop_event = false;
  listening = false;
  bound = none;
  fired = [];
}

unfoldable pub load_state : Answer → Monitor → Monitor
load_state failed m = record m { active = false; initialized = true }
load_state (value v) m = record m { active = is_on v; initialized = true }

unfoldable pub is_active : Answer → Monitor → Monitor × Bool
unfolding load_state
is_active answer m = let m' = if m.initialized then m else load_state answer m in (m', m'.active)

-- A new thread starts with its variables unbound.
unfoldable pub subscribe : String → Monitor → Monitor
subscribe callback m =
    let added = record m { callbacks = m.callbacks ++ (callback ∷ []) } in
    if m.listening
    then added
    else record added { stop_event = false; listening = true; bound = none }

unfoldable pub stop : Monitor → Monitor
stop m = record m { stop_event = true }

-- The loop over `callbacks` after the lock is released. Reading the variable unbound raises, which
-- ends the listener.
unfoldable pub fire : Bool → Option (List String) → Monitor → Monitor
fire state none m = record m { listening = false }
fire state (some cbs) m = record m { fired = m.fired ++ map (λ c. (c, state)) cbs }

abbrev pub differs : Bool → Bool → Bool
differs true b = not b
differs false b = b

-- What the listener does with the data of a message.
unfoldable pub handle : String → Monitor → Monitor
unfolding fire
handle text m =
    let new_state = str_eq text "active" in
    let changed = differs new_state m.active in
    let m' =
      if changed
      then record m { active = new_state; initialized = true; bound = some m.callbacks }
      else m in
    fire new_state m'.bound m'

-- A message that the channel delivers, of type "message" or of another type.
unfoldable pub deliver : (is_message : Bool) → String → Monitor → Monitor
unfolding handle
deliver is_message text m =
    if m.listening
    then if m.stop_event
      then record m { listening = false }
      else if is_message
      then handle text m
      else m
    else m

-- The `except` around the loop of the listener: an exception of `pubsub.listen`, or of the decoding
-- of a message, ends the thread.
unfoldable pub end_listener : Monitor → Monitor
end_listener m = record m { listening = false }

-- `undecodable` is a message of type "message" whose data is no UTF-8; `lost` is a connection that
-- fails.
pub data Input : Type 0 where
  message : (is_message : Bool) → String → Input
  asked : Answer → Input
  subscribed : String → Input
  stopped undecodable lost : Input

unfoldable pub step : Input → Monitor → Monitor
unfolding deliver is_active subscribe stop end_listener
step (message is_message text) m = deliver is_message text m
step (asked answer) m = (is_active answer m).0
step (subscribed callback) m = subscribe callback m
step stopped m = stop m
step undecodable m = end_listener m
step lost m = end_listener m

unfoldable pub run : List Input → Monitor → Monitor
run [] m = m
run (i ∷ is) m = run is (step i m)
