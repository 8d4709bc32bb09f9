-- ===== src/Trading/Positions/Models.antt =====
-- The records of monitor/position_monitor.py and its arithmetic on prices. Times are in microseconds.
use clartt_capital.Common.{ℕ, Bool, Option, some, none, String, if◌then◌else◌}
use clartt_capital.Floats.{Floats}
use clartt_capital.Trading.Models.{Signal, SignalDirection, TradingAccount}
use clartt_capital.Trading.ExitRules.{ExitRules, is_zero}

pub record TrackedPosition (N : Floats) : Type 0 where
  pub position_id : ℕ
  pub signal : Signal N
  pub account : TradingAccount N
  pub exit_rules : ExitRules N
  pub entry_time : ℕ
  pub entry_price : N.F
  pub direction : SignalDirection
  pub instrument : String
  pub original_size : N.F
  pub current_size : N.F
  pub current_sl : N.F
  pub break_even_applied : Bool
  pub trailing_activated : Bool
  pub trailing_sl : N.F
  pub partial_close_done : Bool
  pub atr_trailing_activated : Bool
  pub entry_atr : N.F

-- The prices of a tick, as far as the broker gives them.
pub record Tick (N : Floats) : Type 0 where
  pub bid : Option N.F
  pub ask : Option N.F
  pub last : Option N.F

-- What `fetch_closed_contract` reports.
pub record ClosedContract (N : Floats) : Type 0 where
  pub broker_order_id : ℕ
  pub exit_price : N.F
  pub profit_loss : N.F
  pub closed_at : ℕ
  pub status : String

module _ (N : Floats) where
  -- The price at which the position would be closed: 0.0 where the tick has none.
  unfoldable pub current_price : SignalDirection → Tick N → N.F
  current_price SignalDirection.buy t = elim t.bid [
    | some p ↦ p
    | none ↦ elim t.last [ some p ↦ p | none ↦ N.lit 0 ]
  ]
  current_price SignalDirection.sell t = elim t.ask [
    | some p ↦ p
    | none ↦ elim t.last [ some p ↦ p | none ↦ N.lit 0 ]
  ]

  -- `b` in the direction of profit from `a`, by a distance; and against it.
  abbrev pub ahead : SignalDirection → N.F → N.F → N.F
  ahead SignalDirection.buy a d = N.add a d
  ahead SignalDirection.sell a d = N.sub a d

  abbrev pub behind : SignalDirection → N.F → N.F → N.F
  behind SignalDirection.buy a d = N.sub a d
  behind SignalDirection.sell a d = N.add a d

  unfoldable pub profit_distance : TrackedPosition N → N.F → N.F
  profit_distance p price = elim p.direction [
    | SignalDirection.buy ↦ N.sub price p.entry_price
    | SignalDirection.sell ↦ N.sub p.entry_price price
  ]

  -- Whether a stop loss is better than the one in force.
  abbrev pub tighter : SignalDirection → N.F → N.F → Bool
  tighter SignalDirection.buy new old = N.lt old new
  tighter SignalDirection.sell new old = N.lt new old

  -- The metadata of a signal has no `atr_sl_multiplier`, so the default 2.0 stands in for it.
  unfoldable pub estimate_entry_atr : Signal N → N.F → N.F
  estimate_entry_atr s fill_price =
      let distance = N.abs (N.sub fill_price s.stop_loss) in
      if is_zero N distance then N.lit 0 else N.div distance (N.lit 2)

  -- The profit or loss of a position closed at a price.
  unfoldable pub profit_at : TrackedPosition N → N.F → N.F
  profit_at p exit_price = N.mul (profit_distance p exit_price) p.current_size

  -- Python's `min`.
  abbrev pub min : N.F → N.F → N.F
  min a b = if N.lt b a then b else a

  unfoldable pub lots_to_close : TrackedPosition N → N.F
  lots_to_close p =
      min
        (N.round 2
          (N.mul p.original_size (N.div p.exit_rules.partial_close.close_percent (N.lit 100))))
        p.current_size
