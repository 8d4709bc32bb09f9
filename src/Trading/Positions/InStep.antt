-- ===== src/Trading/Positions/InStep.antt =====
-- The stop loss that the monitor remembers and the one at the broker. (position_monitor.py,
-- `_modify_sl` and the blocks of `_evaluate_position` that call it)
use clartt_capital.Common.{ℕ, ◌≡◌, arith, if◌then◌else◌}
use clartt_capital.Floats.{Floats}
use clartt_capital.Trading.Models.{TradingAccount}
use clartt_capital.Trading.ExitRules.{InstrumentSpecs, pips_to_price}
use clartt_capital.Trading.Positions.Models.{TrackedPosition, ahead, behind}
use clartt_capital.Trading.Positions.Broker.{Services, World, accepted}
use clartt_capital.Trading.Positions.Rules.{
  break_even, trailing_stop, atr_trailing_stop, partial_close, adjust,
}

-- The stop loss that is in force at the broker changes when the executor has modified it, and only
-- then.
pub record KeepsStops {N : Floats} (X : Services N) (stop_of : ℕ → X.State → N.F) : Type 0 where
  pub modified :
      (id : ℕ) (a : TradingAccount N) (sl : N.F) (s : X.State)
      → stop_of id (X.modify_order id a sl s).0
        ≡ (if accepted (X.modify_order id a sl s).1 then sl else stop_of id s)

module _ {N : Floats} (X : Services N) (stop_of : ℕ → X.State → N.F)
    (k : KeepsStops X stop_of) where
  abbrev InStep : TrackedPosition N × World X → Type 0
  InStep (p, w) = stop_of p.position_id w.state ≡ p.current_sl

  module _ (specs : InstrumentSpecs N) (price : N.F) where
    break_even-InStep :
        (pw : TrackedPosition N × World X) → InStep pw → InStep (break_even X specs price pw)
    unfolding break_even
    break_even-InStep (p, w) h =
        let sl =
          ahead N p.direction p.entry_price
            (pips_to_price N specs p.exit_rules.break_even.buffer_pips) in
        ground (arith, k.modified p.position_id p.account sl w.state)

    trailing_stop-InStep :
        (pw : TrackedPosition N × World X) → InStep pw → InStep (trailing_stop X specs price pw)
    unfolding trailing_stop
    trailing_stop-InStep (p, w) h =
        let sl =
          behind N p.direction price
            (pips_to_price N specs p.exit_rules.trailing_stop.trail_distance_pips) in
        ground (arith, k.modified p.position_id p.account sl w.state)

    atr_trailing_stop-InStep :
        (pw : TrackedPosition N × World X) → InStep pw → InStep (atr_trailing_stop X specs price pw)
    unfolding atr_trailing_stop
    atr_trailing_stop-InStep (p, w) h =
        let sl =
          behind N p.direction price
            (N.mul p.exit_rules.atr_trailing_stop.trail_atr_mult p.entry_atr) in
        ground (arith, k.modified p.position_id p.account sl w.state)

    partial_close-InStep :
        (pw : TrackedPosition N × World X) → InStep pw → InStep (partial_close X specs price pw)
    unfolding partial_close
    partial_close-InStep (p, w) h = ground arith

    -- If the stop loss at the broker changes exactly when the executor says that it has modified it,
    -- the one that the monitor remembers is still the one at the broker after the break-even, both
    -- trailing stops and the partial close, whatever the broker answered.
    pub adjust_in_step :
        (p : TrackedPosition N) (w : World X)
        → stop_of p.position_id w.state ≡ p.current_sl
        → let (p', w') = adjust X specs price (p, w) in
          stop_of p'.position_id w'.state ≡ p'.current_sl
    unfolding adjust
    adjust_in_step p w h =
        let b = break_even X specs price (p, w) in
        let t = trailing_stop X specs price b in
        let a = atr_trailing_stop X specs price t in
        partial_close-InStep a
          (atr_trailing_stop-InStep t (trailing_stop-InStep b (break_even-InStep (p, w) h)))
