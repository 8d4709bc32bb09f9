-- ===== src/Trading/Worker/Tests.antt =====
-- A worker over a list of messages, and the theorems at inputs that meet their hypotheses.
use clartt_capital.Common.{
  ℕ, zero, suc, ◌≡◌, refl, inl, true, false, Option, some, none, List, [], ◌∷◌, ◌++◌, String,
  str_eq, arith, if◌then◌else◌,
}
use clartt_capital.Floats.Naturals.{naturals, unary}
use clartt_capital.Breaker.{Outcome, returned}
use clartt_capital.Trading.Models.{TradeExecutionStatus}
use clartt_capital.Trading.Samples.{signal, account, result}
use clartt_capital.Trading.Risk.{
  defaults, validate, all_passed, checked, note, check_max_risk_per_trade, check_daily_loss_limit,
  check_max_positions, check_max_lot_exposure, check_slippage, check_spread,
  check_trailing_drawdown,
}
use clartt_capital.Trading.Consumer.{
  Stream, Inbox, created, consume, Call, ends, never, signal_in, read_next, delivered, acknowledge,
}
use clartt_capital.Trading.Worker.Models.{Desk, Worker, World}
use clartt_capital.Trading.Worker.Cycle.{
  drained_by, drain, handle, process_one_cycle, proceed, autopilot_gate, next_signal, assigned,
  judge, resolve_broker_symbol, done, follow, follow_up, member, publish, publish_risk, symbol_for,
  trade,
}
use clartt_capital.Trading.Worker.Drain.{drain_until_malformed}
use clartt_capital.Trading.Worker.Trades.{Handled, handle_decides}
use clartt_capital.Trading.Worker.Gates.{Through, cycle_trades}
use clartt_capital.Trading.Worker.Consent.{IsMonitored, Allowed, trade_has_consent}
use clartt_capital.Trading.Autopilot

abbrev Pending : Type 0
Pending = List (String × Option String)

abbrev read : ℕ → Pending → Pending × Call (Outcome (Option (String × Option String)))
read zero [] = ([], never)
read (suc n) [] = ([], ends (returned none))
read n (m ∷ ms) = (ms, ends (returned (some m)))

-- A text is a signal if it is "signal".
abbrev stream : Stream naturals
stream = record {
  Db = Pending;
  create_group = λ d. (d, created);
  read_group = read;
  parse = λ t. if str_eq t "signal" then some signal else none;
}

abbrev desk : Desk naturals
desk = record {
  State = Unit {0};
  now = λ s. (s, 5);
  kill_switch_active = λ s. (s, false);
  has_autopilot = true;
  autopilot_enabled = λ id s. (s, true);
  execute = λ g a s. (s, returned (result TradeExecutionStatus.filled));
  has_persister = false;
  record_entry = λ g a r s. s;
  has_monitor = false;
  track_position = λ id g a p s. (s, returned tt);
  publishes_events = true;
}

abbrev worker : Worker naturals
worker = record {
  account = account 1000;
  risk_manager = defaults naturals;
  poll_timeout_ms = 1000;
  was_kill_switched = true;
  deactivated_while_open = false;
  assigned_strategy_ids = [];
  broker_symbol_map = [];
}

abbrev good : String → String × Option String
good id = (id, some "signal")

-- A stale signal, a message that does not parse, and a second stale signal.
abbrev mixed : Inbox stream
mixed = record { db = good "1" ∷ ("2", some "broken") ∷ good "3" ∷ []; acknowledged = [] }

-- The second stale signal is still pending after the drain.
stale : (drain stream 9 0 mixed).0.db ≡ good "3" ∷ []
unfolding drain drained_by consume read_next delivered acknowledge signal_in
stale = refl

drain_until_malformed_example :
    let (w', out) = drain stream 9 0 mixed in
    (w'.db ≡ good "3" ∷ []) × (w'.acknowledged ≡ "1" ∷ "2" ∷ []) × (out ≡ ends (returned 1))
unfolding signal_in
drain_until_malformed_example =
    drain_until_malformed stream (λ d. d)
      (record {
        grouped = λ d. inl refl;
        kept = λ d. refl;
        nothing = λ d h. (rw h refl, rw h refl);
        next = λ d m ms h. (rw h refl, rw h refl);
      })
      (good "1" ∷ []) (("2", some "broken") ∷ good "3" ∷ []) 9 0 mixed refl ((signal, refl), tt)
      refl (omega arith)

abbrev world : World stream desk
world = record { inbox = mixed; state = tt; published = [] }

handle_decides_example :
    let (w', out) = handle stream desk unary worker "1" signal world in
    Handled stream desk unary worker "1" signal world w' out
handle_decides_example = handle_decides stream desk unary worker "1" signal world

cycle_trades_example :
    let ((k', w'), out) = process_one_cycle stream desk unary 9 worker world in
    Through stream desk unary worker world (k', w') out
cycle_trades_example = cycle_trades stream desk unary 9 worker world

-- A desk whose state is what the monitor of the autopilot has had; Redis fails.
abbrev monitored : Desk naturals
monitored = record desk {
  State = List Autopilot.Input;
  now = λ s. (s, 5);
  kill_switch_active = λ s. (s, false);
  autopilot_enabled = λ id s. (
    s ++ (Autopilot.asked Autopilot.failed id ∷ []),
    (Autopilot.is_enabled Autopilot.failed id (Autopilot.run s Autopilot.init)).1,
  );
  execute = λ g a s. (s, returned (result TradeExecutionStatus.filled));
  record_entry = λ g a r s. s;
  track_position = λ id g a p s. (s, returned tt);
}

monitor : IsMonitored monitored
monitor = record {
  inputs = λ s. s;
  answer = λ _. Autopilot.failed;
  has_autopilot = refl;
  asks = λ id s. refl;
}

abbrev switched_on : World stream monitored
switched_on = record {
  inbox = mixed;
  state =
      Autopilot.subscribed "log"
      ∷ Autopilot.message true (Autopilot.fields (some worker.account.id) (some true))
      ∷ [];
  published = [];
}

-- The cycle drains two messages, and trades the third.
trades_on :
    (process_one_cycle stream monitored unary 9 worker switched_on).1
    ≡ ends (returned (some (result TradeExecutionStatus.filled)))
unfolding process_one_cycle drain drained_by consume read_next delivered acknowledge signal_in
    handle proceed autopilot_gate next_signal assigned judge validate all_passed checked note
    check_max_risk_per_trade resolve_broker_symbol check_daily_loss_limit check_max_positions
    check_max_lot_exposure check_slippage check_spread check_trailing_drawdown done follow follow_up
    member publish publish_risk symbol_for trade Autopilot.is_enabled Autopilot.run Autopilot.step
    Autopilot.init Autopilot.announce Autopilot.deliver Autopilot.handle Autopilot.load_state
    Autopilot.stop Autopilot.subscribe
trades_on = refl

trade_has_consent_example :
    Allowed stream monitored unary monitor worker switched_on.state
      (process_one_cycle stream monitored unary 9 worker switched_on).1
trade_has_consent_example = trade_has_consent stream monitored unary monitor 9 worker switched_on
