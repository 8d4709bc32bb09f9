-- ===== src/Trading/Worker/Models.antt =====
-- What a worker is, what it calls, and what it publishes.
use clartt_capital.Common.{ℕ, Bool, List, String}
use clartt_capital.Floats.{Floats}
use clartt_capital.Breaker.{Outcome}
use clartt_capital.Trading.Models.{
  Signal, TradingAccount, TradeExecutionResult, RiskValidationResult,
}
use clartt_capital.Trading.Risk.{RiskManager}
use clartt_capital.Trading.Consumer.{Stream, Inbox}

-- `now` is the time of a risk validation. A monitor of positions may raise when it parses exit rules.
pub record Desk (N : Floats) : Type 1 where
  pub State : Type 0
  pub now : State → State × ℕ
  pub kill_switch_active : State → State × Bool
  pub has_autopilot : Bool
  pub autopilot_enabled : String → State → State × Bool
  pub execute : Signal N → TradingAccount N → State → State × Outcome (TradeExecutionResult N)
  pub has_persister : Bool
  pub record_entry : Signal N → TradingAccount N → TradeExecutionResult N → State → State
  pub has_monitor : Bool
  pub track_position :
      ℕ → Signal N → TradingAccount N → (fill_price : N.F) → State → State × Outcome (Unit {0})
  pub publishes_events : Bool

pub data Event (N : Floats) : Type 0 where
  risk_evaluated : Signal N → TradingAccount N → RiskValidationResult → Event N
  trade_entry : Signal N → TradingAccount N → TradeExecutionResult N → Event N

pub record Worker (N : Floats) : Type 0 where
  pub account : TradingAccount N
  pub risk_manager : RiskManager N
  pub poll_timeout_ms : ℕ
  pub was_kill_switched : Bool
  pub deactivated_while_open : Bool
  pub assigned_strategy_ids : List String
  pub broker_symbol_map : List (String × String)

pub record World {N : Floats} (R : Stream N) (X : Desk N) : Type 0 where
  pub inbox : Inbox R
  pub state : X.State
  pub published : List (Event N)
