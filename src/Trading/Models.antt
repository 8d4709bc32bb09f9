-- ===== src/Trading/Models.antt =====
-- packages/execution-engine/src/models: signal.py, timeframe.py, trading_account.py,
-- risk_validation_result.py and trade_execution_result.py. Floats are an argument; the exit rules,
-- a dictionary that these parts only hand on, are their JSON text.
use clartt_capital.Common.{ℕ, Bool, String, Option, List}
use clartt_capital.Floats.{Floats}

pub data SignalDirection : Type 0 where
  buy sell : SignalDirection

pub data Timeframe : Type 0 where
  one_minute five_minutes fifteen_minutes thirty_minutes one_hour four_hours one_day : Timeframe

pub data SignalMode : Type 0 where
  backtest forward_test live : SignalMode

pub data BosType : Type 0 where
  bullish bearish : BosType

pub data RiskRuleName : Type 0 where
  max_risk_per_trade daily_loss_limit max_positions max_lot_exposure spread_check slippage_check
        trailing_drawdown :
      RiskRuleName

pub record RiskRuleResult : Type 0 where
  pub rule : RiskRuleName
  pub passed : Bool
  pub reason : Option String

pub record RiskValidationResult : Type 0 where
  pub approved : Bool
  pub signal_id : String
  pub account_id : String
  pub rules_checked : List RiskRuleResult
  pub rejected_by : Option RiskRuleName
  pub validated_at : ℕ

pub data TradeExecutionStatus : Type 0 where
  filled rejected partial error : TradeExecutionStatus

pub record SignalMetadata (N : Floats) : Type 0 where
  pub bos_type : BosType
  pub liquidity_swept : Bool
  pub session : String
  pub spread_at_generation : N.F
  pub volatility_ratio : N.F

pub record Signal (N : Floats) : Type 0 where
  pub id : String
  pub instrument : String
  pub direction : SignalDirection
  pub entry_price : N.F
  pub stop_loss : N.F
  pub take_profit : N.F
  pub position_size : N.F
  pub confidence_score : N.F
  pub timeframe : Timeframe
  pub order_block_id : String
  pub strategy_id : String
  pub mode : SignalMode
  pub metadata : SignalMetadata N
  pub exit_rules : Option String
  pub broker_symbol : Option String
  pub created_at : String

pub record TradingAccount (N : Floats) : Type 0 where
  pub id : String
  pub user_id : String
  pub metaapi_account_id : Option String
  pub label : Option String
  pub is_active : Bool
  pub account_kind : String
  pub broker_provider : Option String
  pub deriv_api_token : Option String
  pub deriv_login_id : Option String
  pub prop_firm_name : Option String
  pub prop_max_daily_loss_pct : Option N.F
  pub prop_max_total_drawdown_pct : Option N.F
  pub prop_profit_target_pct : Option N.F
  pub equity : N.F
  pub balance : N.F
  pub open_positions : ℕ
  pub daily_loss : N.F
  pub total_lot_exposure : N.F

pub record TradeExecutionResult (N : Floats) : Type 0 where
  pub id : String
  pub signal_id : String
  pub account_id : String
  pub order_id : ℕ
  pub fill_price : N.F
  pub execution_latency_ms : N.F
  pub status : TradeExecutionStatus
  pub rejection_reason : Option String
  pub slippage : N.F
  pub spread_at_execution : N.F
  pub created_at : String
