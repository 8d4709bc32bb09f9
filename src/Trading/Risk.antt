-- ===== src/Trading/Risk.antt =====
-- risk/risk_manager.py: `RiskManager`. Every division of the source is by 100.0, or by an equity or
-- a high-water mark that has passed a test for `<= 0`, so none raises. The account of trading_account.py
-- has no attribute `high_water_mark`, so the balance always stands in for it. The time is an
-- argument.
mod Rules
mod Limits
mod Tests
use clartt_capital.Common.{
  ℕ, Bool, true, false, ◌&&◌, Option, none, some, List, [], ◌∷◌, ◌++◌, String, ◌<>◌, ltb,
  if◌then◌else◌,
}
use clartt_capital.Floats.{Floats}
use clartt_capital.Trading.Models.{
  Signal, TradingAccount, RiskRuleName, RiskRuleResult, RiskValidationResult,
}

pub record RiskManager (N : Floats) : Type 0 where
  pub max_risk_per_trade_pct : N.F
  pub max_daily_loss_pct : N.F
  pub max_positions : ℕ
  pub max_lot_exposure : N.F
  pub max_spread : N.F
  pub max_slippage : N.F
  pub max_trailing_drawdown_pct : N.F

-- The default arguments of the constructor.
abbrev pub defaults : (N : Floats) → RiskManager N
defaults N = record {
  max_risk_per_trade_pct = N.lit 2;
  max_daily_loss_pct = N.lit 5;
  max_positions = 10;
  max_lot_exposure = N.lit 50;
  max_spread = N.lit 5;
  max_slippage = N.lit 3;
  max_trailing_drawdown_pct = N.lit 10;
}

-- `rules_checked` and `first_rejection` while `validate` runs.
pub record Progress : Type 0 where
  pub rules_checked : List RiskRuleResult
  pub first_rejection : Option RiskRuleName

abbrev pub first_of : Option RiskRuleName → RiskRuleName → Option RiskRuleName
first_of none rule = some rule
first_of (some first) rule = some first

-- One of the seven blocks of `validate`.
unfoldable pub note : RiskRuleName → Bool → String → Progress → Progress
note rule ok why p = record {
  rules_checked =
      p.rules_checked
      ++ (record { rule = rule; passed = ok; reason = if ok then none else some why } ∷ []);
  first_rejection = if ok then p.first_rejection else first_of p.first_rejection rule;
}

unfoldable pub all_passed : List RiskRuleResult → Bool
all_passed [] = true
all_passed (r ∷ rs) = r.passed && all_passed rs

module _ (N : Floats) (m : RiskManager N) where
  unfoldable pub check_max_risk_per_trade : Signal N → TradingAccount N → Bool
  check_max_risk_per_trade s a =
      if N.le a.equity (N.lit 0)
      then false
      else N.le (N.div (N.mul (N.abs (N.sub s.entry_price s.stop_loss)) s.position_size) a.equity)
          (N.div m.max_risk_per_trade_pct (N.lit 100))

  unfoldable pub check_daily_loss_limit : TradingAccount N → Bool
  check_daily_loss_limit a =
      if N.le a.equity (N.lit 0)
      then false
      else N.le (N.div a.daily_loss a.equity) (N.div m.max_daily_loss_pct (N.lit 100))

  unfoldable pub check_max_positions : TradingAccount N → Bool
  check_max_positions a = ltb a.open_positions m.max_positions

  unfoldable pub check_max_lot_exposure : Signal N → TradingAccount N → Bool
  check_max_lot_exposure s a = N.le (N.add a.total_lot_exposure s.position_size) m.max_lot_exposure

  unfoldable pub check_spread : N.F → N.F → Bool
  check_spread spread limit = N.le spread limit

  unfoldable pub check_slippage : N.F → N.F → Bool
  check_slippage slippage limit = N.le slippage limit

  unfoldable pub check_trailing_drawdown : TradingAccount N → Bool
  check_trailing_drawdown a =
      let hwm = a.balance in
      if N.le a.equity (N.lit 0)
      then false
      else if N.le hwm (N.lit 0)
      then true
      else N.lt (N.mul (N.div (N.sub hwm a.equity) hwm) (N.lit 100)) m.max_trailing_drawdown_pct

  -- The blocks in their order. `show_int` prints an `int`.
  unfoldable pub checked : (ℕ → String) → Signal N → TradingAccount N → Progress
  checked show_int s a =
      let spread = s.metadata.spread_at_generation in
      let slippage = s.metadata.volatility_ratio in
      note RiskRuleName.trailing_drawdown (check_trailing_drawdown a)
        ("Trailing drawdown exceeds " <> N.show m.max_trailing_drawdown_pct <> "% from HWM")
        (note RiskRuleName.slippage_check (check_slippage slippage m.max_slippage)
          ("Estimated slippage " <> N.show slippage <> " exceeds max " <> N.show m.max_slippage)
          (note RiskRuleName.spread_check (check_spread spread m.max_spread)
            ("Spread " <> N.show spread <> " exceeds max " <> N.show m.max_spread)
            (note RiskRuleName.max_lot_exposure (check_max_lot_exposure s a)
              ("Total lot exposure would exceed " <> N.show m.max_lot_exposure)
              (note RiskRuleName.max_positions (check_max_positions a)
                ("Open positions at maximum (" <> show_int m.max_positions <> ")")
                (note RiskRuleName.daily_loss_limit (check_daily_loss_limit a)
                  ("Daily loss exceeds " <> N.show m.max_daily_loss_pct <> "% of equity")
                  (note RiskRuleName.max_risk_per_trade (check_max_risk_per_trade s a)
                    ("Risk per trade exceeds " <> N.show m.max_risk_per_trade_pct <> "% of equity")
                    (record { rules_checked = []; first_rejection = none })))))))

  unfoldable pub validate : (ℕ → String) → ℕ → Signal N → TradingAccount N → RiskValidationResult
  validate show_int now s a =
      let p = checked show_int s a in
      record {
        approved = all_passed p.rules_checked;
        signal_id = s.id;
        account_id = a.id;
        rules_checked = p.rules_checked;
        rejected_by = p.first_rejection;
        validated_at = now;
      }
