-- ===== src/Trading/Risk/Limits.antt =====
-- How the answer of `validate` depends on the limits and on the equity. (risk_manager.py)
use clartt_capital.Common.{
  ℕ, ◌≡◌, ◌≤◌, refl, sym, ◌∙◌, Bool, true, false, ◌&&◌, some, String, arith, if◌then◌else◌,
}
use clartt_capital.Floats.{Floats, IsLawful}
use clartt_capital.Trading.Models.{Signal, TradingAccount, RiskRuleName}
use clartt_capital.Trading.Risk.{
  RiskManager, check_max_risk_per_trade, check_daily_loss_limit, check_max_positions,
  check_max_lot_exposure, check_spread, check_slippage, check_trailing_drawdown, validate, checked,
  note,
}
use clartt_capital.Trading.Risk.Rules.{validate_decides, first_failed}

if_mono :
    (b c x y : Bool)
    → (x ≡ true → y ≡ true)
    → (if b then c else x) ≡ true
    → (if b then c else y) ≡ true
if_mono true c x y f h = h
if_mono false c x y f h = f h

and_mono :
    (a b x y : Bool)
    → (a ≡ true → x ≡ true)
    → (b ≡ true → y ≡ true)
    → (a && b) ≡ true
    → (x && y) ≡ true
and_mono true b x y f g h = rw (f refl) (g h)
and_mono false b x y f g h = ground arith

module _ (N : Floats) where
  -- Every limit of the first is at most that of the second.
  pub record IsStricter (m n : RiskManager N) : Type 0 where
    pub risk : N.le m.max_risk_per_trade_pct n.max_risk_per_trade_pct ≡ true
    pub loss : N.le m.max_daily_loss_pct n.max_daily_loss_pct ≡ true
    pub positions : m.max_positions ≤ n.max_positions
    pub lots : N.le m.max_lot_exposure n.max_lot_exposure ≡ true
    pub spread : N.le m.max_spread n.max_spread ≡ true
    pub slippage : N.le m.max_slippage n.max_slippage ≡ true
    pub drawdown : N.le m.max_trailing_drawdown_pct n.max_trailing_drawdown_pct ≡ true

  module _ (L : IsLawful N) {m n : RiskManager N} (h : IsStricter m n) (s : Signal N)
      (a : TradingAccount N) where
    risk_mono : check_max_risk_per_trade N m s a ≡ true → check_max_risk_per_trade N n s a ≡ true
    unfolding check_max_risk_per_trade
    risk_mono c =
        let ratio =
          N.div (N.mul (N.abs (N.sub s.entry_price s.stop_loss)) s.position_size) a.equity in
        if_mono (N.le a.equity (N.lit 0)) false
          (N.le ratio (N.div m.max_risk_per_trade_pct (N.lit 100)))
          (N.le ratio (N.div n.max_risk_per_trade_pct (N.lit 100)))
          (λ e. L.le_trans ratio _ _ e (L.div_le_div _ _ h.risk)) c

    loss_mono : check_daily_loss_limit N m a ≡ true → check_daily_loss_limit N n a ≡ true
    unfolding check_daily_loss_limit
    loss_mono c =
        let ratio = N.div a.daily_loss a.equity in
        if_mono (N.le a.equity (N.lit 0)) false
          (N.le ratio (N.div m.max_daily_loss_pct (N.lit 100)))
          (N.le ratio (N.div n.max_daily_loss_pct (N.lit 100)))
          (λ e. L.le_trans ratio _ _ e (L.div_le_div _ _ h.loss)) c

    positions_mono : check_max_positions N m a ≡ true → check_max_positions N n a ≡ true
    unfolding check_max_positions
    positions_mono c = let p = h.positions in ground arith

    drawdown_mono : check_trailing_drawdown N m a ≡ true → check_trailing_drawdown N n a ≡ true
    unfolding check_trailing_drawdown
    drawdown_mono c =
        let pct = N.mul (N.div (N.sub a.balance a.equity) a.balance) (N.lit 100) in
        let below = λ (k : RiskManager N). N.lt pct k.max_trailing_drawdown_pct in
        let unfunded = λ (k : RiskManager N). if N.le a.balance (N.lit 0) then true else below k in
        if_mono (N.le a.equity (N.lit 0)) false (unfunded m) (unfunded n)
          (if_mono (N.le a.balance (N.lit 0)) true (below m) (below n)
            (λ e. L.lt_of_lt_of_le pct _ _ e h.drawdown))
          c

    lots_mono : check_max_lot_exposure N m s a ≡ true → check_max_lot_exposure N n s a ≡ true
    unfolding check_max_lot_exposure
    lots_mono c = L.le_trans _ _ _ c h.lots

    spread_mono :
        (x : N.F) → check_spread N m x m.max_spread ≡ true → check_spread N n x n.max_spread ≡ true
    unfolding check_spread
    spread_mono x c = L.le_trans _ _ _ c h.spread

    slippage_mono :
        (x : N.F)
        → check_slippage N m x m.max_slippage ≡ true
        → check_slippage N n x n.max_slippage ≡ true
    unfolding check_slippage
    slippage_mono x c = L.le_trans _ _ _ c h.slippage

    -- A signal that `validate` approves under some limits is approved under limits none of which is
    -- lower.
    pub validate_monotone :
        (show_int : ℕ → String) (now : ℕ)
        → (validate N m show_int now s a).approved ≡ true
        → (validate N n show_int now s a).approved ≡ true
    validate_monotone show_int now c =
        let (_, _, _, before) = validate_decides N m show_int now s a in
        let (_, _, _, after) = validate_decides N n show_int now s a in
        after
        ∙ and_mono _ _ _ _ risk_mono
            (and_mono _ _ _ _ loss_mono (
              and_mono _ _ _ _ positions_mono (
                and_mono _ _ _ _ lots_mono (
                  and_mono _ _ _ _ (spread_mono _)
                    (and_mono _ _ _ _ (slippage_mono _) drawdown_mono)))))
            (sym before ∙ c)

  no_equity_first :
      (m : RiskManager N) (show_int : ℕ → String) (now : ℕ) (s : Signal N) (a : TradingAccount N)
      → N.le a.equity (N.lit 0) ≡ true
      → first_failed (validate N m show_int now s a).rules_checked
        ≡ some RiskRuleName.max_risk_per_trade
  unfolding validate checked note first_failed check_max_risk_per_trade
  no_equity_first m show_int now s a e = rw e refl

  -- An account without a positive equity gets no signal approved, whatever the limits: the first
  -- rule rejects it, and the daily loss and the trailing drawdown fail as well.
  pub no_equity_rejected :
      (m : RiskManager N) (show_int : ℕ → String) (now : ℕ) (s : Signal N) (a : TradingAccount N)
      → N.le a.equity (N.lit 0) ≡ true
      → let v = validate N m show_int now s a in
        (v.approved ≡ false)
        × (v.rejected_by ≡ some RiskRuleName.max_risk_per_trade)
        × (check_daily_loss_limit N m a ≡ false)
        × (check_trailing_drawdown N m a ≡ false)
  unfolding check_max_risk_per_trade check_daily_loss_limit check_trailing_drawdown
  no_equity_rejected m show_int now s a e =
      let (_, first, _, all) = validate_decides N m show_int now s a in
      (all ∙ rw e refl, first ∙ no_equity_first m show_int now s a e, rw e refl, rw e refl)
