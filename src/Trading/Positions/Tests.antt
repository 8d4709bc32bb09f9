-- ===== src/Trading/Positions/Tests.antt =====
-- A position at a broker whose state is the stop loss in force, and the theorems at inputs that meet
-- their hypotheses.
use clartt_capital.Common.{◌≡◌, refl, true, false, Option, some, none, List, [], ◌∷◌}
use clartt_capital.Floats.{Floats}
use clartt_capital.Floats.Integers.{pos, integers, abs_sub}
use clartt_capital.Floats.Naturals.{naturals, naturals-IsLawful}
use clartt_capital.Trading.Models.{SignalDirection, TradeExecutionResult, TradeExecutionStatus}
use clartt_capital.Trading.Samples.{signal_in, account_in, result}
use clartt_capital.Trading.ExitRules.{
  ExitRules, InstrumentSpecs, no_rules, price_to_pips, pips_to_price,
}
use clartt_capital.Trading.Positions.Models.{
  TrackedPosition, ClosedContract, lots_to_close, profit_distance,
}
use clartt_capital.Trading.Positions.Broker.{Services, World}
use clartt_capital.Trading.Positions.Rules.{
  profit_pips, break_even, trailing_stop, atr_trailing_stop, partial_close, adjust, time_is_up,
  apply_rules,
}
use clartt_capital.Trading.Positions.Reconcile.{Progress, reconcile_positions}
use clartt_capital.Trading.Positions.Stops.{Poll, NotLooser, evaluated, stop_only_tightens}
use clartt_capital.Trading.Positions.InStep.{adjust_in_step}
use clartt_capital.Trading.Positions.Loosened.{mirrored, losses_count_as_profits}
use clartt_capital.Trading.Positions.External.{Reconciled, reconcile_positions_closes}

module _ (N : Floats) where
  abbrev contract : ClosedContract N
  contract = record {
    broker_order_id = 7;
    exit_price = N.lit 90;
    profit_loss = N.lit 0;
    closed_at = 5;
    status = "sl";
  }

  -- The broker accepts every stop loss, and answers a close as it is told to.
  abbrev desk : Option (TradeExecutionResult N) → Services N
  desk closing = record {
    State = N.F;
    Client = Unit {0};
    now = λ s. (s, 5);
    symbol_info_tick = λ i s. (s, none);
    fetch_specs = λ s. (s, none);
    modify_order = λ id a sl s. (sl, some true);
    close_position = λ id a s. (s, closing);
    lower = λ t. t;
    legacy = tt;
    has_router = false;
    client_of = λ t. none;
    connects_with_token = λ c. false;
    connect_with_token = λ c l t s. (s, true);
    get_positions = λ c s. (s, some []);
    fetches_contracts = λ c. true;
    fetch_closed_contract = λ c id s. (s, some (some contract));
    has_persister = true;
    record_exit = λ id price profit at s. (s, some true);
  }

  abbrev rules : ExitRules N
  rules = record (no_rules N) {
    break_even = record { enabled = true; activation_pips = N.lit 15; buffer_pips = N.lit 2 };
    trailing_stop = record {
      enabled = true;
      activation_pips = N.lit 20;
      trail_distance_pips = N.lit 40;
    };
    time_exit = record { enabled = true; max_duration_minutes = 1 };
    partial_close = record { enabled = true; trigger_pips = N.lit 5; close_percent = N.lit 50 };
  }

  abbrev specs : InstrumentSpecs N
  specs = record {
    symbol = "US30";
    pip_size = N.lit 1;
    pip_value = N.lit 1;
    contract_size = N.lit 1;
    min_lot = N.lit 1;
    lot_step = N.lit 1;
    leverage = 100;
  }

  -- Bought at 100 with the stop loss at 90.
  abbrev bought : TrackedPosition N
  bought = record {
    position_id = 7;
    signal = signal_in N;
    account = account_in N 1000;
    exit_rules = rules;
    entry_time = 0;
    entry_price = N.lit 100;
    direction = SignalDirection.buy;
    instrument = "US30";
    original_size = N.lit 4;
    current_size = N.lit 4;
    current_sl = N.lit 90;
    break_even_applied = false;
    trailing_activated = false;
    trailing_sl = N.lit 0;
    partial_close_done = false;
    atr_trailing_activated = false;
    entry_atr = N.lit 0;
  }

  abbrev world : (X : Services N) → X.State → World X
  world X s = record { state = s; published = [] }

abbrev X : Services naturals
X = desk naturals none

abbrev armed : TrackedPosition naturals
armed = record (bought naturals) { break_even_applied = true; trailing_activated = true }

abbrev polls : List (Poll X)
polls =
    record { specs = specs naturals; price = 160; now = 5; world = world naturals X 90 }
    ∷ record { specs = specs naturals; price = 130; now = 9; world = world naturals X 120 }
    ∷ []

-- The price rises to 160 and falls to 130: the stop loss follows to 120 and stays there.
follows : (evaluated X polls armed).current_sl ≡ 120
unfolding lots_to_close evaluated apply_rules adjust break_even trailing_stop atr_trailing_stop
    partial_close time_is_up profit_pips profit_distance price_to_pips pips_to_price
follows = refl

stop_only_tightens_example :
    NotLooser naturals SignalDirection.buy (evaluated X polls armed).current_sl 90
stop_only_tightens_example =
    stop_only_tightens X naturals-IsLawful polls armed
      (record { break_even = refl; trailing = refl })

adjust_in_step_example :
    let (p', w') = adjust X (specs naturals) 160 (bought naturals, world naturals X 90) in
    w'.state ≡ p'.current_sl
adjust_in_step_example =
    adjust_in_step X (λ id s. s) (record { modified = λ id a sl s. refl }) (specs naturals) 160
      (bought naturals) (world naturals X 90) refl

-- Down by 15 pips, the stop loss goes to 102, above the price of 85.
loss :
    (break_even
      (desk integers none)
      (specs integers)
      (pos 85)
      (bought integers, world integers (desk integers none) (pos 90))).0.current_sl
    ≡ pos 102
unfolding break_even profit_pips profit_distance price_to_pips pips_to_price
loss = refl

losses_count_as_profits_example :
    let Y = desk integers none in
    let w = world integers Y (pos 90) in
    let p = bought integers in
    ((break_even Y (specs integers) (pos 85) (mirrored p, w)).0.break_even_applied
      ≡ (break_even Y (specs integers) (pos 85) (p, w)).0.break_even_applied)
    × ((trailing_stop Y (specs integers) (pos 85) (mirrored p, w)).0.trailing_activated
        ≡ (trailing_stop Y (specs integers) (pos 85) (p, w)).0.trailing_activated)
losses_count_as_profits_example =
    losses_count_as_profits (desk integers none) (specs integers) (pos 85) abs_sub (bought integers)
      (world integers (desk integers none) (pos 90)) (λ id a sl s. refl)

-- The broker fills the close.
abbrev closing : Services naturals
closing = desk naturals (some (result TradeExecutionStatus.filled))

abbrev start : Progress X
start = record { world = world naturals X 90; closing = []; raised = false }

reconcile_positions_closes_example :
    Reconciled X (9 ∷ []) start (reconcile_positions X tt (9 ∷ []) (bought naturals ∷ []) start)
reconcile_positions_closes_example =
    reconcile_positions_closes X tt (9 ∷ []) (bought naturals ∷ []) start
