-- ===== src/Trading/Risk/Tests.antt =====
-- Signals and accounts under the risk rules, and the theorems at inputs that meet their hypotheses.
use clartt_capital.Common.{◌≡◌, ◌↔◌, ◌&&◌, refl, true, some, none, [], ◌∷◌, map, arith}
use clartt_capital.Floats.Naturals.{naturals, unary}
use clartt_capital.Trading.Samples.{signal, account}
use clartt_capital.Trading.Models.{RiskRuleName}
use clartt_capital.Trading.Risk.{
  RiskManager, defaults, check_max_risk_per_trade, check_daily_loss_limit, check_max_positions,
  check_max_lot_exposure, check_spread, check_slippage, check_trailing_drawdown, checked, note,
  all_passed, validate,
}
use clartt_capital.Trading.Risk.Rules.{first_failed, validate_decides}
use clartt_capital.Trading.Risk.Limits.{IsStricter}

abbrev roomy : RiskManager naturals
roomy = record (defaults naturals) { max_positions = 20; max_spread = 7 }

-- The signal, of spread 2, passes the default limits and fails a limit of 1 on the spread.
healthy : (validate naturals (defaults naturals) unary 0 signal (account 1000)).approved ≡ true
unfolding validate checked note all_passed check_max_risk_per_trade check_daily_loss_limit
    check_max_positions check_max_lot_exposure check_spread check_slippage check_trailing_drawdown
    unary
healthy = refl

too_wide :
    (validate naturals
      (record (defaults naturals) { max_spread = 1 })
      unary
      0
      signal
      (account 1000)).rejected_by
    ≡ some RiskRuleName.spread_check
unfolding validate checked note all_passed check_max_risk_per_trade check_daily_loss_limit
    check_max_positions check_max_lot_exposure check_spread check_slippage check_trailing_drawdown
    unary
too_wide = refl

validate_decides_example :
    let m = defaults naturals in
    let a = account 800 in
    let v = validate naturals m unary 7 signal a in
    (map (λ r. r.rule) v.rules_checked ≡ (
      RiskRuleName.max_risk_per_trade ∷ RiskRuleName.daily_loss_limit ∷ RiskRuleName.max_positions
      ∷ RiskRuleName.max_lot_exposure ∷ RiskRuleName.spread_check ∷ RiskRuleName.slippage_check
      ∷ RiskRuleName.trailing_drawdown ∷ []))
    × (v.rejected_by ≡ first_failed v.rules_checked)
    × ((v.approved ≡ true) ↔ (v.rejected_by ≡ none))
    × (v.approved ≡ (
        check_max_risk_per_trade naturals m signal a
        && (check_daily_loss_limit naturals m a
            && (check_max_positions naturals m a
                && (check_max_lot_exposure naturals m signal a
                    && (check_spread naturals m 2 5
                        && (check_slippage naturals m 1 3
                            && check_trailing_drawdown naturals m a)))))))
validate_decides_example =
    validate_decides naturals (defaults naturals) unary 7 signal (account 800)

abbrev roomier : IsStricter naturals (defaults naturals) roomy
roomier = record {
  risk = refl;
  loss = refl;
  positions = ground arith;
  lots = refl;
  spread = refl;
  slippage = refl;
  drawdown = refl;
}
