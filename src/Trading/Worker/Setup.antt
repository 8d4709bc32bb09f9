-- ===== src/Trading/Worker/Setup.antt =====
-- What a worker reads from Redis when it is made, and the thread that listens for assignments.
use clartt_capital.Common.{Option, none, some, List, [], ◌∷◌, String, str_eq, if◌then◌else◌}
use clartt_capital.Floats.{Floats}
use clartt_capital.Trading.Worker.Models.{Worker}

-- GET of a key that holds JSON: the connection fails, there is no value, the value is no JSON, it is
-- JSON of another kind, or it is what is asked for.
pub data Reply (V : Type 0) : Type 0 where
  unreachable absent unparsed other : Reply V
  held : V → Reply V

-- A set is the list of its elements, of which only the membership is read.
unfoldable pub load_strategy_ids : Reply (List String) → List String
load_strategy_ids unreachable = []
load_strategy_ids absent = []
load_strategy_ids unparsed = []
load_strategy_ids other = []
load_strategy_ids (held ids) = ids

unfoldable pub load_broker_symbols : Reply (List (String × String)) → List (String × String)
load_broker_symbols unreachable = []
load_broker_symbols absent = []
load_broker_symbols unparsed = []
load_broker_symbols other = []
load_broker_symbols (held m) = m

-- What a turn of the listener meets: the stop event is set, the connection fails (in `subscribe` or in
-- `get_message`), or `get_message` returns nothing or a message of another type, one that cannot be
-- parsed, or an assignment with the entries "accountId" and "strategyIds", where they are there.
pub data Update : Type 0 where
  halted : Update
  lost : Update
  quiet : Update
  garbled : Update
  assignment : (account_id : Option String) → (strategy_ids : Option (List String)) → Update

abbrev pub or_empty : Option (List String) → List String
or_empty none = []
or_empty (some ids) = ids

module _ {N : Floats} where
  unfoldable pub strategy_listener_turn : Update → Worker N → Worker N
  strategy_listener_turn halted k = k
  strategy_listener_turn lost k = k
  strategy_listener_turn quiet k = k
  strategy_listener_turn garbled k = k
  strategy_listener_turn (assignment none ids) k = k
  strategy_listener_turn (assignment (some id) ids) k =
      if str_eq id k.account.id then record k { assigned_strategy_ids = or_empty ids } else k

  -- The stop event and the `except` around the loop end the thread.
  unfoldable pub strategy_listener_loop : List Update → Worker N → Worker N
  unfolding strategy_listener_turn
  strategy_listener_loop [] k = k
  strategy_listener_loop (halted ∷ us) k = k
  strategy_listener_loop (lost ∷ us) k = k
  strategy_listener_loop (u ∷ us) k = strategy_listener_loop us (strategy_listener_turn u k)
