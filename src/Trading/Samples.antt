-- ===== src/Trading/Samples.antt =====
-- A signal, an account and a result, on any floats and on numbers that stand for them.
use clartt_capital.Common.{ℕ, true, none}
use clartt_capital.Floats.{Floats}
use clartt_capital.Floats.Naturals.{naturals}
use clartt_capital.Trading.Models.{
  Signal, TradingAccount, SignalDirection, SignalMode, BosType, Timeframe, TradeExecutionResult,
  TradeExecutionStatus,
}

abbrev pub signal_in : (N : Floats) → Signal N
signal_in N = record {
  id = "s1";
  instrument = "US30";
  direction = SignalDirection.buy;
  entry_price = N.lit 100;
  stop_loss = N.lit 90;
  take_profit = N.lit 130;
  position_size = N.lit 2;
  confidence_score = N.lit 1;
  timeframe = Timeframe.fifteen_minutes;
  order_block_id = "ob1";
  strategy_id = "ict";
  mode = SignalMode.live;
  metadata = record {
    bos_type = BosType.bullish;
    liquidity_swept = true;
    session = "london";
    spread_at_generation = N.lit 2;
    volatility_ratio = N.lit 1;
  };
  exit_rules = none;
  broker_symbol = none;
  created_at = "2026-01-05T09:00:00Z";
}

abbrev pub account_in : (N : Floats) → ℕ → TradingAccount N
account_in N equity = record {
  id = "a1";
  user_id = "u1";
  metaapi_account_id = none;
  label = none;
  is_active = true;
  account_kind = "personal";
  broker_provider = none;
  deriv_api_token = none;
  deriv_login_id = none;
  prop_firm_name = none;
  prop_max_daily_loss_pct = none;
  prop_max_total_drawdown_pct = none;
  prop_profit_target_pct = none;
  equity = N.lit equity;
  balance = N.lit 1000;
  open_positions = 1;
  daily_loss = N.lit 0;
  total_lot_exposure = N.lit 3;
}

abbrev pub result_in : (N : Floats) → TradeExecutionStatus → TradeExecutionResult N
result_in N status = record {
  id = "t1";
  signal_id = "";
  account_id = "a1";
  order_id = 7;
  fill_price = N.lit 110;
  execution_latency_ms = N.lit 3;
  status = status;
  rejection_reason = none;
  slippage = N.lit 0;
  spread_at_execution = N.lit 1;
  created_at = "2026-01-05T10:00:00Z";
}

abbrev pub signal : Signal naturals
signal = signal_in naturals

abbrev pub account : ℕ → TradingAccount naturals
account = account_in naturals

abbrev pub result : TradeExecutionStatus → TradeExecutionResult naturals
result = result_in naturals
