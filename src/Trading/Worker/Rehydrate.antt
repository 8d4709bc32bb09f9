-- ===== src/Trading/Worker/Rehydrate.antt =====
-- `_rehydrate_positions`: the open positions of the database are handed to the position monitor again.
-- A row has the columns of `fetch_open_positions`; what is NULL, or no text of its enumeration, is
-- `none`.
use clartt_capital.Common.{
  ℕ, Bool, true, ◌&&◌, Option, none, some, List, [], ◌∷◌, String, str_eq, if◌then◌else◌,
}
use clartt_capital.Floats.{Floats}
use clartt_capital.Breaker.{Outcome, returned}
use clartt_capital.Trading.Models.{
  Signal, SignalDirection, SignalMode, SignalMetadata, Timeframe, TradingAccount,
}
use clartt_capital.Trading.ExitRules.{ExitRules}
use clartt_capital.Trading.Positions.Cycle.{Monitor, rehydrate_position}
use clartt_capital.Trading.Worker.Synthetic.{is_price}

pub record Row (N : Floats) : Type 0 where
  pub broker_order_id : Option ℕ
  pub instrument : String
  pub direction : Option SignalDirection
  pub fill_price : Option N.F
  pub entry_price : Option N.F
  pub position_size : Option N.F
  pub opened_at : ℕ
  pub signal_id : String
  pub stop_loss : Option N.F
  pub take_profit : Option N.F
  pub confidence_score : Option N.F
  pub timeframe : Option Timeframe
  pub order_block_id : Option String
  pub strategy_id : String
  pub mode : Option SignalMode
  pub metadata : Option (SignalMetadata N)
  pub created_at : String
  pub exit_rules : Option String

abbrev pub block_of : Option String → String
block_of none = "rehydrated"
block_of (some t) = if str_eq t "" then "rehydrated" else t

-- What raises ends the construction.
infixl 5 ◌>>=◌
abbrev ◌>>=◌ {ℓ κ} : {A : Type ℓ} {B : Type κ} → Option A → (A → Option B) → Option B
none >>= f = none
(some a) >>= f = f a

module _ (N : Floats) where
  -- `x or y`, for a number that may be missing and a default that may be missing.
  unfoldable pub or_price : Option N.F → Option N.F → Option N.F
  or_price none y = y
  or_price (some x) y = if is_price N x then some x else y

  -- The constraint on the confidence score.
  unfoldable pub bounded : (score : N.F) → Signal N → Option (Signal N)
  bounded score s = if N.le (N.lit 0) score && N.le score (N.lit 1) then some s else none

  -- The Signal of a row; `none` is whatever its construction raises, as for a score that is not
  -- between 0 and 1.
  unfoldable pub signal_of : Row N → Option (Signal N)
  unfolding or_price bounded
  signal_of r = do
    direction ← r.direction
    entry ← or_price r.entry_price r.fill_price
    stop ← r.stop_loss
    target ← r.take_profit
    size ← r.position_size
    score ← or_price r.confidence_score (some (N.lit 0))
    timeframe ← r.timeframe
    mode ← r.mode
    metadata ← r.metadata
    bounded score (record {
      id = r.signal_id;
      instrument = r.instrument;
      direction = direction;
      entry_price = entry;
      stop_loss = stop;
      take_profit = target;
      position_size = size;
      confidence_score = score;
      timeframe = timeframe;
      order_block_id = block_of r.order_block_id;
      strategy_id = r.strategy_id;
      mode = mode;
      metadata = metadata;
      exit_rules = r.exit_rules;
      broker_symbol = none;
      created_at = r.created_at;
    })

-- The monitor after a row: one that raises leaves it as it was.
abbrev pub after {ℓ} : {A : Type ℓ} → Option A → A → A
after none m = m
after (some m') m = m'

module _ {N : Floats} (model_validate : String → Option (ExitRules N)) (a : TradingAccount N) where
  -- The body of the loop: `none` is a row that is logged and left to the broker.
  unfoldable pub rehydrate_row : Row N → Monitor N → Option (Monitor N)
  unfolding signal_of or_price
  rehydrate_row r m = do
    s ← signal_of N r
    id ← r.broker_order_id
    fill ← or_price N r.fill_price (some s.entry_price)
    rehydrate_position N model_validate id s a fill r.opened_at m

  unfoldable pub rehydrate_rows : List (Row N) → Monitor N → Monitor N
  unfolding rehydrate_row
  rehydrate_rows [] m = m
  rehydrate_rows (r ∷ rs) m = rehydrate_rows rs (after (rehydrate_row r m) m)

  -- The rows are fetched only where there is a database and a monitor.
  unfoldable pub rehydrate_positions :
      (has_persister has_monitor : Bool) → Outcome (List (Row N)) → Monitor N → Monitor N
  unfolding rehydrate_rows
  rehydrate_positions true true (returned rows) m = rehydrate_rows rows m
  rehydrate_positions _ _ _ m = m
