-- ===== src/Trading/Worker/RehydrationTests.antt =====
-- A restart with a row that cannot be rebuilt and one that can.
use clartt_capital.Common.{◌≡◌, refl, true, some, none, [], ◌∷◌, ◌++◌}
use clartt_capital.Floats.Naturals.{naturals}
use clartt_capital.Trading.Models.{SignalDirection, SignalMode, Timeframe}
use clartt_capital.Trading.Samples.{signal, account}
use clartt_capital.Trading.ExitRules.{ExitRules, no_rules, from_dict, has_any_enabled}
use clartt_capital.Trading.Positions.Cycle.{Monitor, find}
use clartt_capital.Trading.Worker.Rehydrate.{Row, signal_of, or_price, bounded, rehydrate_rows}
use clartt_capital.Trading.Worker.Resumed.{IsResumable, Keeps, resumed, rehydrate_rows_resumes}

abbrev rules : ExitRules naturals
rules = record (no_rules naturals) {
  time_exit = record { enabled = true; max_duration_minutes = 60 };
}

abbrev row : Row naturals
row = record {
  broker_order_id = some 7;
  instrument = "US30";
  direction = some SignalDirection.buy;
  fill_price = some 100;
  entry_price = none;
  position_size = some 2;
  opened_at = 5;
  signal_id = "s1";
  stop_loss = some 90;
  take_profit = some 130;
  confidence_score = some 1;
  timeframe = some Timeframe.one_hour;
  order_block_id = none;
  strategy_id = "ict";
  mode = some SignalMode.live;
  metadata = some signal.metadata;
  created_at = "2026-01-05T09:00:00Z";
  exit_rules = some "rules";
}

abbrev broken : Row naturals
broken = record row { stop_loss = none; broker_order_id = some 8 }

abbrev monitor : Monitor naturals
monitor = record { positions = []; specs_cache = []; specs_cache_time = 0 }

unfoldable resumable : IsResumable (λ t. some rules) (account 1000) row
unfolding signal_of or_price bounded from_dict has_any_enabled
resumable = record {
  signal = record signal {
    timeframe = Timeframe.one_hour;
    order_block_id = "rehydrated";
    exit_rules = some "rules";
  };
  position_id = 7;
  fill = 100;
  rules = rules;
  has_signal = refl;
  has_id = refl;
  has_fill = refl;
  has_rules = refl;
  enabled = refl;
}

rehydrate_rows_resumes_example :
    let m' = rehydrate_rows (λ t. some rules) (account 1000) ((broken ∷ []) ++ row ∷ []) monitor in
    let earlier =
      find 7 (rehydrate_rows (λ t. some rules) (account 1000) (broken ∷ []) monitor).positions in
    (find 7 m'.positions ≡ some (resumed (λ t. some rules) (account 1000) row resumable earlier))
    × Keeps (λ t. some rules) (account 1000) monitor m'
unfolding resumable
rehydrate_rows_resumes_example =
    rehydrate_rows_resumes (λ t. some rules) (account 1000) (broken ∷ []) [] row monitor resumable
