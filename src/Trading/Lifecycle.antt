-- ===== src/Trading/Lifecycle.antt =====
-- lifecycle/trade_lifecycle_manager.py: `TradeLifecycleManager`. The executor is an interface over an
-- unknown state of the broker. A failure to publish is caught in the source, so what is published is
-- kept as the list of what was handed to Redis and to the event publisher. `strptime` reads a text in
-- a format and gives the timestamp in UTC; `show_int` is `str` on integers.
mod Protection
mod Books
mod Tests
use clartt_capital.Common.{
  ℕ, suc, zero, Bool, true, false, ◌&&◌, not, Option, none, some, List, [], ◌∷◌, ◌++◌, String,
  str_eq, if◌then◌else◌,
}
use clartt_capital.Floats.{Floats}
use clartt_capital.Trading.Models.{
  Signal, SignalDirection, TradingAccount, TradeExecutionResult, TradeExecutionStatus,
}

pub data PositionStatus : Type 0 where
  is_open closed_sl closed_tp closed_exit unknown : PositionStatus

-- TradeExecutor, as this class calls it.
pub record Executor (N : Floats) : Type 1 where
  pub Broker : Type 0
  pub execute : Signal N → TradingAccount N → Broker → Broker × TradeExecutionResult N
  -- The stop loss and the take profit are the modifications.
  pub modify_order : ℕ → TradingAccount N → N.F → N.F → Broker → Broker × Bool
  pub close_position : ℕ → TradingAccount N → Broker → Broker × TradeExecutionResult N

-- The exit fields of the payload of `_publish_trade_event`.
pub record Exit (N : Floats) : Type 0 where
  pub exit_reason : String
  pub exit_price : N.F
  pub profit_loss : N.F

pub data Event (N : Floats) : Type 0 where
  trade_entry : TradingAccount N → TradeExecutionResult N → Option (Signal N) → Event N
  trade_exit : TradingAccount N → TradeExecutionResult N → Option (Signal N) → Exit N → Event N
  position_opened :
      (position_id account_id trade_id instrument : String)
      → SignalDirection
      → (entry_price position_size : N.F) → Event N
  position_updated :
      (position_id account_id : String)
      → (current_price unrealized_pnl : N.F) → (update_reason : String) → Event N
  position_closed :
      (position_id account_id : String)
      → (exit_price realized_pnl : N.F) → (close_reason : String) → (duration_seconds : N.F)
      → Event N

pub record World {N : Floats} (X : Executor N) : Type 0 where
  pub broker : X.Broker
  pub published : List (Event N)

-- `SL_TP_MAX_RETRIES`.
abbrev pub sl_tp_max_retries : ℕ
sl_tp_max_retries = 3

abbrev pub is_filled : TradeExecutionStatus → Bool
is_filled TradeExecutionStatus.filled = true
is_filled _ = false

abbrev pub profit : (N : Floats) → SignalDirection → N.F → N.F → N.F → N.F
profit N SignalDirection.buy entry exit size = N.mul (N.sub exit entry) size
profit N SignalDirection.sell entry exit size = N.mul (N.sub entry exit) size

module _ {N : Floats} where
  -- Direction and prices of a signal, or those that stand in for one that is missing.
  abbrev pub direction_of : Option (Signal N) → SignalDirection
  direction_of none = SignalDirection.buy
  direction_of (some s) = s.direction

  abbrev pub entry_of : Option (Signal N) → N.F
  entry_of none = N.lit 0
  entry_of (some s) = s.entry_price

  abbrev pub size_of : Option (Signal N) → N.F
  size_of none = N.lit 0
  size_of (some s) = s.position_size

  -- The profit or loss of an exit, computed alike for both events.
  unfoldable pub profit_loss : Option (Signal N) → N.F → N.F
  profit_loss s exit = profit N (direction_of s) (entry_of s) exit (size_of s)

  abbrev pub id_of : Option (Signal N) → String
  id_of none = ""
  id_of (some s) = s.id

  abbrev pub created_of : Option (Signal N) → String
  created_of none = ""
  created_of (some s) = s.created_at

module _ (N : Floats) (strptime : String → String → Option N.F) where
  -- `_parse_ts`: the first of the formats that fits, or 0.0.
  unfoldable pub parse_in : List String → String → N.F
  parse_in [] ts = N.lit 0
  parse_in (fmt ∷ fmts) ts = elim (strptime ts fmt) [ none ↦ parse_in fmts ts | some t ↦ t ]

  unfoldable pub parse_ts : String → N.F
  unfolding parse_in
  parse_ts = parse_in ("%Y-%m-%dT%H:%M:%S%z" ∷ "%Y-%m-%dT%H:%M:%SZ" ∷ [])

  -- The duration from one timestamp to another, if both are known. `max(0.0, d)`
  -- is 0.0 unless `d` is greater.
  unfoldable pub duration : String → String → N.F
  unfolding parse_ts
  duration opened closed =
      let t_open = parse_ts opened in
      let t_close = parse_ts closed in
      let known = not (str_eq opened "") && not (str_eq closed "") in
      let positive = N.lt (N.lit 0) t_open && N.lt (N.lit 0) t_close in
      let elapsed = N.sub t_close t_open in
      if known
      then if positive then if N.lt (N.lit 0) elapsed then elapsed else N.lit 0 else N.lit 0
      else N.lit 0

unfoldable pub monitor_position : ℕ → PositionStatus
monitor_position id = is_open

module _ {N : Floats} where
  unfoldable pub no_account : ℕ → Option (Signal N) → TradeExecutionResult N
  no_account id s = record {
    id = "";
    signal_id = id_of s;
    account_id = "";
    order_id = id;
    fill_price = N.lit 0;
    execution_latency_ms = N.lit 0;
    status = TradeExecutionStatus.error;
    rejection_reason = some "No account provided for exit";
    slippage = N.lit 0;
    spread_at_execution = N.lit 0;
    created_at = "";
  }

  unfoldable pub enrich : Option (Signal N) → TradeExecutionResult N → TradeExecutionResult N
  enrich none r = r
  enrich (some s) r = if str_eq r.signal_id "" then record r { signal_id = s.id } else r

module _ {N : Floats} (X : Executor N) where
  unfoldable pub publish : Event N → World X → World X
  publish e w = record w { published = w.published ++ (e ∷ []) }

  -- The attempts that are left.
  unfoldable pub attempts : ℕ → ℕ → N.F → N.F → TradingAccount N → X.Broker → X.Broker × Bool
  attempts zero id sl tp account b = (b, false)
  attempts (suc n) id sl tp account b =
      let (b', success) = X.modify_order id account sl tp b in
      elim success [ true ↦ (b', true) | false ↦ attempts n id sl tp account b' ]

  unfoldable pub attach_sl_tp : ℕ → N.F → N.F → Option (TradingAccount N) → World X → World X × Bool
  unfolding attempts
  attach_sl_tp id sl tp none w = (w, false)
  attach_sl_tp id sl tp (some account) w =
      let (b, success) = attempts sl_tp_max_retries id sl tp account w.broker in
      (record w { broker = b }, success)

module _ {N : Floats} (X : Executor N) (publishing : Bool) (show_int : ℕ → String) where
  -- The publishers of events return at once when there is no event publisher.
  unfoldable pub publish_event : Event N → World X → World X
  unfolding publish
  publish_event e w = if publishing then publish X e w else w

  unfoldable pub opened_event : TradeExecutionResult N → Signal N → TradingAccount N → Event N
  opened_event r s account =
      position_opened (show_int r.order_id) account.id r.id s.instrument s.direction r.fill_price
        s.position_size

  -- The part of `place_entry` after the order has been executed.
  unfoldable pub after_entry :
      Signal N → TradingAccount N → TradeExecutionResult N → World X → World X
  unfolding attach_sl_tp publish publish_event opened_event
  after_entry s account r w =
      if is_filled r.status
      then publish_event (opened_event r s account) (
          publish X (trade_entry account r (some s))
            (attach_sl_tp X r.order_id s.stop_loss s.take_profit (some account) w).0)
      else w

  unfoldable pub place_entry :
      Signal N → TradingAccount N → World X → World X × TradeExecutionResult N
  unfolding after_entry
  place_entry s account w =
      let (b, r) = X.execute s account w.broker in
      (after_entry s account r (record w { broker = b }), r)

  unfoldable pub publish_position_updated :
      ℕ → TradingAccount N → N.F → N.F → String → World X → World X
  unfolding publish_event
  publish_position_updated id account price pnl reason w =
      publish_event (position_updated (show_int id) account.id price pnl reason) w

  module _ (strptime : String → String → Option N.F) where
    unfoldable pub after_exit :
        ℕ
        → String
        → TradingAccount N
        → Option (Signal N)
        → TradeExecutionResult N
        → World X
        → World X
    unfolding publish publish_event profit_loss duration
    after_exit id reason account s r w =
        let gain = profit_loss s r.fill_price in
        let exit : Exit N = record {
          exit_reason = reason;
          exit_price = r.fill_price;
          profit_loss = gain;
        } in
        if is_filled r.status
        then publish_event
            (position_closed (show_int id) account.id r.fill_price gain reason
              (duration N strptime (created_of s) r.created_at))
            (publish X (trade_exit account r s exit) w)
        else w

    unfoldable pub execute_exit :
        ℕ
        → String
        → Option (TradingAccount N)
        → Option (Signal N)
        → World X
        → World X × TradeExecutionResult N
    unfolding after_exit enrich no_account
    execute_exit id reason none s w = (w, no_account id s)
    execute_exit id reason (some account) s w =
        let (b, closed) = X.close_position id account w.broker in
        let r = enrich s closed in (after_exit id reason account s r (record w { broker = b }), r)
