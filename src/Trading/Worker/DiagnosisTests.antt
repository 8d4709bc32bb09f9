-- ===== src/Trading/Worker/DiagnosisTests.antt =====
-- The diagnosis and the assignments of a worker, at inputs that meet the hypotheses of the theorems.
use clartt_capital.Common.{◌≡◌, ◌||◌, refl, true, false, some, none, List, [], ◌∷◌}
use clartt_capital.Floats.Naturals.{naturals, unary}
use clartt_capital.Breaker.{returned, raised}
use clartt_capital.Trading.Models.{SignalDirection, TradeExecutionStatus}
use clartt_capital.Trading.Samples.{signal, account, result}
use clartt_capital.Trading.Risk.{defaults}
use clartt_capital.Trading.Worker.Models.{Desk, Worker}
use clartt_capital.Trading.Worker.Cycle.{assigned, member, is_empty}
use clartt_capital.Trading.Worker.Setup.{
  unreachable, load_strategy_ids, Update, lost, quiet, garbled, assignment, strategy_listener_loop,
}
use clartt_capital.Trading.Worker.Accepts.{latest, accepts_latest}
use clartt_capital.Trading.Worker.Synthetic.{
  Plumbing, Bench, first_price, levels_at, rec, first_gates, synthetic,
}
use clartt_capital.Trading.Worker.Simulate.{
  simulate_signal, price_and_finish, finish, order, ask_autopilot,
}
use clartt_capital.Trading.Risk.{
  validate, checked, note, all_passed, check_max_risk_per_trade, check_daily_loss_limit,
  check_max_positions, check_max_lot_exposure, check_spread, check_slippage,
  check_trailing_drawdown,
}
use clartt_capital.Trading.Worker.Diagnosis.{Ordered, simulate_signal-Ordered}

-- A desk whose broker fills every order, and whose monitor cannot follow it.
abbrev desk : Desk naturals
desk = record {
  State = Unit {0};
  now = λ s. (s, 5);
  kill_switch_active = λ s. (s, false);
  has_autopilot = true;
  autopilot_enabled = λ id s. (s, true);
  execute = λ g a s. (s, returned (result TradeExecutionStatus.filled));
  has_persister = false;
  record_entry = λ g a r s. s;
  has_monitor = true;
  track_position = λ id g a p s. (s, raised "no exit rules");
  publishes_events = false;
}

abbrev plumbing : Plumbing desk
plumbing = record {
  Client = Unit {0};
  resolve_client = λ instrument a. some tt;
  connect_with_retry = λ a c s. (s, returned tt);
  get_symbol_info_tick = λ c t s. (s, returned (some (none ∷ some 100 ∷ some 101 ∷ [])));
}

abbrev worker : Worker naturals
worker = record {
  account = account 1000;
  risk_manager = defaults naturals;
  poll_timeout_ms = 1000;
  was_kill_switched = false;
  deactivated_while_open = false;
  assigned_strategy_ids = load_strategy_ids unreachable;
  broker_symbol_map = [];
}

abbrev bench : Bench desk
bench = record { state = tt; sent = [] }

-- The price is the first one that is there.
priced : first_price naturals (none ∷ some 0 ∷ some 101 ∷ []) ≡ some 101
unfolding first_price
priced = refl

simulate_signal-Ordered_example :
    let (w', r) =
      simulate_signal desk plumbing unary worker "t" "now" "US30" SignalDirection.buy true bench in
    Ordered desk plumbing unary true bench w' r
simulate_signal-Ordered_example =
    simulate_signal-Ordered desk plumbing unary worker "t" "now" "US30" SignalDirection.buy true
      bench

-- The dry run would trade, and sends nothing.
dry_would :
    let (_, r) =
      simulate_signal desk plumbing unary worker "t" "now" "US30" SignalDirection.buy false bench in
    r.would_trade ≡ true
unfolding simulate_signal price_and_finish finish order ask_autopilot first_price levels_at rec
    first_gates synthetic validate checked note all_passed check_max_risk_per_trade
    check_daily_loss_limit check_max_positions check_max_lot_exposure check_spread check_slippage
    check_trailing_drawdown
dry_would = refl

abbrev updates : List Update
updates =
    quiet
    ∷ assignment (some "other") (some ("x" ∷ []))
    ∷ garbled
    ∷ assignment (some worker.account.id) (some ("ict" ∷ []))
    ∷ lost
    ∷ assignment (some worker.account.id) none
    ∷ []

accepts_latest_example :
    let ids = latest worker.account.id updates [] in
    assigned (strategy_listener_loop updates worker) signal
    ≡ (is_empty ids || member signal.strategy_id ids)
accepts_latest_example = accepts_latest unreachable updates worker signal refl refl
