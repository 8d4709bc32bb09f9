-- ===== src/Trading/Positions/Rules.antt =====
-- The exit rules of one position: `_evaluate_position` once the price is known.
use clartt_capital.Common.{ℕ, ◌+◌, ◌*◌, Bool, true, false, not, ◌&&◌, ◌||◌, leb, if◌then◌else◌}
use clartt_capital.Floats.{Floats}
use clartt_capital.Trading.ExitRules.{InstrumentSpecs, price_to_pips, pips_to_price}
use clartt_capital.Trading.Positions.Models.{
  TrackedPosition, ahead, behind, profit_distance, tighter, lots_to_close,
}
use clartt_capital.Trading.Positions.Broker.{Services, World, modify_sl, close_position}

module _ {N : Floats} (X : Services N) where
  -- A stop loss that the broker accepts is the one in force.
  unfoldable pub move_sl : TrackedPosition N → N.F → World X → TrackedPosition N × World X × Bool
  unfolding modify_sl
  move_sl p new_sl w =
      let (w', success) = modify_sl X p new_sl w in
      ((if success then record p { current_sl = new_sl } else p), w', success)

  module _ (specs : InstrumentSpecs N) (price : N.F) where
    unfoldable pub profit_pips : TrackedPosition N → N.F
    unfolding profit_distance price_to_pips
    profit_pips p = price_to_pips N specs (profit_distance N p price)

    -- The four blocks after the time exit, each on the position that the one before leaves.
    unfoldable pub break_even : TrackedPosition N × World X → TrackedPosition N × World X
    unfolding move_sl pips_to_price
    break_even (p, w) =
        let rule = p.exit_rules.break_even in
        let new_sl = ahead N p.direction p.entry_price (pips_to_price N specs rule.buffer_pips) in
        let (p', w', success) = move_sl p new_sl w in
        if rule.enabled && not p.break_even_applied
        then if N.le rule.activation_pips (profit_pips p)
          then ((if success then record p' { break_even_applied = true } else p'), w')
          else (p, w)
        else (p, w)

    unfoldable pub trailing_stop : TrackedPosition N × World X → TrackedPosition N × World X
    unfolding move_sl pips_to_price
    trailing_stop (p, w) =
        let rule = p.exit_rules.trailing_stop in
        let new_sl = behind N p.direction price (pips_to_price N specs rule.trail_distance_pips) in
        let update = not p.trailing_activated || tighter N p.direction new_sl p.current_sl in
        let active = record p { trailing_activated = true } in
        let (p', w', success) = move_sl active new_sl w in
        if rule.enabled
        then if N.le rule.activation_pips (profit_pips p)
          then if update
            then ((if success then record p' { trailing_sl = new_sl } else p'), w')
            else (active, w)
          else (p, w)
        else (p, w)

    -- Activation needs a profit; the stop then follows the price from any side.
    unfoldable pub activate_atr : TrackedPosition N → TrackedPosition N
    unfolding profit_distance
    activate_atr p =
        let activation = N.mul p.exit_rules.atr_trailing_stop.activation_atr_mult p.entry_atr in
        if N.le activation (profit_distance N p price)
        then record p { atr_trailing_activated = true }
        else p

    unfoldable pub follow_atr : TrackedPosition N → World X → TrackedPosition N × World X
    unfolding move_sl
    follow_atr p w =
        let trail = N.mul p.exit_rules.atr_trailing_stop.trail_atr_mult p.entry_atr in
        let new_sl = behind N p.direction price trail in
        let (p', w', _) = move_sl p new_sl w in
        if p.atr_trailing_activated && tighter N p.direction new_sl p.current_sl
        then (p', w')
        else (p, w)

    unfoldable pub atr_trailing_stop : TrackedPosition N × World X → TrackedPosition N × World X
    unfolding activate_atr follow_atr
    atr_trailing_stop (p, w) =
        if p.exit_rules.atr_trailing_stop.enabled && N.lt (N.lit 0) p.entry_atr
        then follow_atr (activate_atr p) w
        else (p, w)

    -- `_partial_close` only logs and returns True.
    unfoldable pub partial_close : TrackedPosition N × World X → TrackedPosition N × World X
    partial_close (p, w) =
        let rule = p.exit_rules.partial_close in
        let lots = lots_to_close N p in
        if rule.enabled && not p.partial_close_done
        then if N.le rule.trigger_pips (profit_pips p) && N.le specs.min_lot lots
          then (record p { partial_close_done = true; current_size = N.sub p.current_size lots }, w)
          else (p, w)
        else (p, w)

    unfoldable pub adjust : TrackedPosition N × World X → TrackedPosition N × World X
    unfolding break_even trailing_stop atr_trailing_stop partial_close
    adjust pw = partial_close (atr_trailing_stop (trailing_stop (break_even pw)))

  -- Whether the time exit is due: the minutes since the entry have reached the maximum.
  unfoldable pub time_is_up : ℕ → TrackedPosition N → Bool
  time_is_up now p =
      let rule = p.exit_rules.time_exit in
      rule.enabled && leb (p.entry_time + rule.max_duration_minutes * 60000000) now

  -- The exit rules once the price is known, with whether the position is to be untracked.
  unfoldable pub apply_rules :
      InstrumentSpecs N → N.F → ℕ → TrackedPosition N → World X → TrackedPosition N × World X × Bool
  apply_rules specs price now p w =
      let (w', _) = close_position X p "time_exit" w in
      let (p', w'') = adjust specs price (p, w) in
      if time_is_up now p then (p, w', true) else (p', w'', false)
