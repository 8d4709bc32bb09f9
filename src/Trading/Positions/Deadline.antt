-- ===== src/Trading/Positions/Deadline.antt =====
-- The time exit. (position_monitor.py, `_evaluate_position` and `_close_position`)
use clartt_capital.Common.{◌≡◌, Option, some, none, List, if◌then◌else◌, [], ◌∷◌}
use clartt_capital.Floats.{Floats}
use clartt_capital.Trading.Models.{TradeExecutionResult}
use clartt_capital.Trading.ExitRules.{InstrumentSpecs}
use clartt_capital.Trading.Positions.Models.{TrackedPosition, profit_at}
use clartt_capital.Trading.Positions.Broker.{
  Services, World, Event, trade_exit, filled, persist_exit,
}

-- What is published of a close: an exit with its profit or loss if the broker has filled it.
abbrev pub exit_of :
    {N : Floats} → TrackedPosition N → Option (TradeExecutionResult N) → List (Event N)
exit_of p none = []
exit_of {N} p (some r) =
    if filled r.status then trade_exit p r "time_exit" (profit_at N p r.fill_price) ∷ [] else []

module _ {N : Floats} (X : Services N) where
  -- The state that a close leaves: the executor's, followed by the bookkeeping of a filled close.
  abbrev pub booked : TrackedPosition N → X.State × Option (TradeExecutionResult N) → X.State
  booked p (s, none) = s
  booked p (s, some r) =
      if filled r.status
      then (persist_exit X p r (record { state = s; published = [] })).state
      else s

  module _ (specs : InstrumentSpecs N) (price : N.F) where
    abbrev Quiet : (TrackedPosition N × World X → TrackedPosition N × World X) → Type 0
    Quiet f = (p : TrackedPosition N) (w : World X) → (f (p, w)).1.published ≡ w.published
