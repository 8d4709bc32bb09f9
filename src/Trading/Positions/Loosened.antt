-- ===== src/Trading/Positions/Loosened.antt =====
-- Where the exit rules move a stop loss against its purpose. (position_monitor.py,
-- `_evaluate_position`; instrument_specs.py, `price_to_pips`)
use clartt_capital.Common.{ℕ, ◌≡◌, refl, true, false, ◌&&◌, ◌||◌, arith}
use clartt_capital.Floats.{Floats}
use clartt_capital.Trading.Models.{SignalDirection, TradingAccount}
use clartt_capital.Trading.ExitRules.{InstrumentSpecs, pips_to_price, price_to_pips}
use clartt_capital.Trading.Positions.Models.{
  TrackedPosition, ahead, behind, tighter, profit_distance,
}
use clartt_capital.Trading.Positions.Broker.{Services, World, accepted}
use clartt_capital.Trading.Positions.Rules.{profit_pips, break_even, trailing_stop}

abbrev pub opposite : SignalDirection → SignalDirection
opposite SignalDirection.buy = SignalDirection.sell
opposite SignalDirection.sell = SignalDirection.buy

-- The same position in the other direction: what is a profit for the one is a loss for the other.
abbrev pub mirrored : {N : Floats} → TrackedPosition N → TrackedPosition N
mirrored p = record p { direction = opposite p.direction }

module _ {N : Floats} (X : Services N) (specs : InstrumentSpecs N) (price : N.F) where
  applied_after :
      (p : TrackedPosition N) (w : World X)
      → ((id : ℕ) (a : TradingAccount N) (sl : N.F) (s : X.State)
          → accepted (X.modify_order id a sl s).1 ≡ true)
      → (break_even X specs price (p, w)).0.break_even_applied ≡ (
          p.break_even_applied
          || (p.exit_rules.break_even.enabled
              && N.le p.exit_rules.break_even.activation_pips (profit_pips X specs price p)))
  unfolding break_even
  applied_after p w ok =
      let sl =
        ahead N p.direction p.entry_price
          (pips_to_price N specs p.exit_rules.break_even.buffer_pips) in
      ground (arith, ok p.position_id p.account sl w.state)

  activated_after :
      (p : TrackedPosition N) (w : World X)
      → (trailing_stop X specs price (p, w)).0.trailing_activated ≡ (
          p.trailing_activated
          || (p.exit_rules.trailing_stop.enabled
              && N.le p.exit_rules.trailing_stop.activation_pips (profit_pips X specs price p)))
  unfolding trailing_stop
  activated_after p w = ground arith

  module _ (abs_sub : (a b : N.F) → N.abs (N.sub a b) ≡ N.abs (N.sub b a)) where
    pips_of :
        (d : SignalDirection) (p : TrackedPosition N)
        → p.direction ≡ d
        → profit_pips X specs price (mirrored p) ≡ profit_pips X specs price p
    unfolding profit_pips profit_distance price_to_pips
    pips_of SignalDirection.buy p e = rw (e, abs_sub p.entry_price price) refl
    pips_of SignalDirection.sell p e = rw (e, abs_sub p.entry_price price) refl

    -- `profit_pips` is an absolute value, so a loss counts as a profit: at a broker that accepts every
    -- stop loss, the break-even is applied to a position exactly when it is applied to the one in the
    -- other direction, and the trailing stop is active after an evaluation exactly when that of the
    -- other one is. It needs that the distance of two floats does not depend on their order.
    pub losses_count_as_profits :
        (p : TrackedPosition N) (w : World X)
        → ((id : ℕ) (a : TradingAccount N) (sl : N.F) (s : X.State)
            → accepted (X.modify_order id a sl s).1 ≡ true)
        → let q = mirrored p in
          ((break_even X specs price (q, w)).0.break_even_applied
            ≡ (break_even X specs price (p, w)).0.break_even_applied)
          × ((trailing_stop X specs price (q, w)).0.trailing_activated
              ≡ (trailing_stop X specs price (p, w)).0.trailing_activated)
    losses_count_as_profits p w ok = (
      (rw (applied_after (mirrored p) w ok, applied_after p w ok, pips_of p.direction p refl) refl),
      (rw (activated_after (mirrored p) w, activated_after p w, pips_of p.direction p refl) refl),
    )

  -- The first activation of the trailing stop is not guarded: if the broker accepts, the stop loss is
  -- set at the trailing distance from the price also where that is looser than the one in force.
  pub first_trail_loosens :
      (p : TrackedPosition N) (w : World X)
      → let rule = p.exit_rules.trailing_stop in
        let new_sl = behind N p.direction price (pips_to_price N specs rule.trail_distance_pips) in
        let q = (trailing_stop X specs price (p, w)).0 in
        rule.enabled ≡ true
        → p.trailing_activated ≡ false
        → N.le rule.activation_pips (profit_pips X specs price p) ≡ true
        → accepted (X.modify_order p.position_id p.account new_sl w.state).1 ≡ true
        → tighter N p.direction p.current_sl new_sl ≡ true
        → (q.current_sl ≡ new_sl) × (tighter N p.direction p.current_sl q.current_sl ≡ true)
  unfolding trailing_stop
  first_trail_loosens p w on first reached ok looser = ground arith
