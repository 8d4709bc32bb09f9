-- ===== src/Trading/Risk/Rules.antt =====
-- What an answer of `validate` says. (risk_manager.py)
use clartt_capital.Common.{
  ℕ, ◌≡◌, ◌↔◌, refl, sym, ap, ◌∙◌, Bool, true, false, ◌&&◌, Option, none, some, List, [], ◌∷◌, ◌++◌,
  String, map, Bool-cases, inl, inr, arith,
}
use clartt_capital.Floats.{Floats}
use clartt_capital.Trading.Models.{Signal, TradingAccount, RiskRuleName, RiskRuleResult}
use clartt_capital.Trading.Risk.{
  RiskManager, Progress, first_of, note, all_passed, check_max_risk_per_trade,
  check_daily_loss_limit, check_max_positions, check_max_lot_exposure, check_spread, check_slippage,
  check_trailing_drawdown, checked, validate,
}

-- The rule of the first result that did not pass.
unfoldable pub first_failed : List RiskRuleResult → Option RiskRuleName
first_failed [] = none
first_failed (r ∷ rs) = elim r.passed [ true ↦ first_failed rs | false ↦ some r.rule ]

-- Rejecting names the first failed rule, and passing means that none failed.
abbrev IsSound : Progress → Type 0
IsSound p =
    (p.first_rejection ≡ first_failed p.rules_checked)
    × (all_passed p.rules_checked ≡ elim p.first_rejection [ none ↦ true | some _ ↦ false ])

first_failed-append :
    (rs : List RiskRuleResult) (r : RiskRuleResult)
    → first_failed (rs ++ (r ∷ [])) ≡ (elim r.passed [
      | true ↦ first_failed rs
      | false ↦ some (elim (first_failed rs) [ none ↦ r.rule | some f ↦ f ])
    ])
unfolding first_failed
first_failed-append [] r = refl
first_failed-append (x ∷ xs) r = let ih = first_failed-append xs r in ground arith

all_passed-append :
    (rs : List RiskRuleResult) (r : RiskRuleResult)
    → all_passed (rs ++ (r ∷ [])) ≡ (all_passed rs && r.passed)
unfolding all_passed
all_passed-append [] r = elim (Bool-cases r.passed) [ inl f ↦ rw f refl | inr f ↦ rw f refl ]
all_passed-append (x ∷ xs) r = elim (Bool-cases x.passed) [
  | inl e ↦ rw e (all_passed-append xs r)
  | inr e ↦ rw e refl
]

and_true : (b : Bool) → (b && true) ≡ b
and_true b = ground arith

and_false : (b : Bool) → (b && false) ≡ false
and_false b = ground arith

if_first :
    (o : Option RiskRuleName) (rule : RiskRuleName)
    → first_of o rule ≡ some (elim o [ none ↦ rule | some f ↦ f ])
if_first none rule = refl
if_first (some f) rule = refl

none_left :
    (o : Option RiskRuleName) (rule : RiskRuleName)
    → false ≡ elim (first_of o rule) [ none ↦ true | some _ ↦ false ]
none_left none rule = refl
none_left (some f) rule = refl

note-IsSound :
    (rule : RiskRuleName) (ok : Bool) (why : String) (p : Progress)
    → IsSound p
    → IsSound (note rule ok why p)
unfolding note
note-IsSound rule true why p (h, k) = (
  h ∙ sym (first_failed-append p.rules_checked _),
  all_passed-append p.rules_checked _ ∙ and_true _ ∙ k,
)
note-IsSound rule false why p (h, k) = (
  rw (first_failed-append, sym h) (if_first p.first_rejection rule),
  all_passed-append p.rules_checked _ ∙ and_false _ ∙ none_left p.first_rejection rule,
)

none_of : (o : Option RiskRuleName) → true ≡ elim o [ none ↦ true | some _ ↦ false ] → o ≡ none
none_of none h = refl
none_of (some f) h = ground arith

module _ (N : Floats) where
  checked-IsSound :
      (m : RiskManager N) (show_int : ℕ → String) (s : Signal N) (a : TradingAccount N)
      → IsSound (checked N m show_int s a)
  unfolding checked first_failed all_passed
  checked-IsSound m show_int s a = note-IsSound _ _ _ _ (
      note-IsSound _ _ _ _ (
        note-IsSound _ _ _ _ (
          note-IsSound _ _ _ _
            (note-IsSound _ _ _ _ (note-IsSound _ _ _ _ (note-IsSound _ _ _ _ (refl, refl)))))))

  approved_iff :
      (m : RiskManager N) (show_int : ℕ → String) (now : ℕ) (s : Signal N) (a : TradingAccount N)
      → let v = validate N m show_int now s a in
        (v.rejected_by ≡ first_failed v.rules_checked)
        × ((v.approved ≡ true) ↔ (v.rejected_by ≡ none))
  unfolding validate
  approved_iff m show_int now s a =
      let (h, k) = checked-IsSound m show_int s a in
      (
        h,
        (λ e. none_of _ (sym e ∙ k), λ e. k ∙ ap (λ o. elim o [ none ↦ true | some _ ↦ false ]) e),
      )

  -- `validate` records the seven rules in their order, names the first one that failed, and
  -- approves exactly when none failed, which is when every one of the seven checks returns True.
  pub validate_decides :
      (m : RiskManager N) (show_int : ℕ → String) (now : ℕ) (s : Signal N) (a : TradingAccount N)
      → let v = validate N m show_int now s a in
        (map (λ r. r.rule) v.rules_checked ≡ (
          RiskRuleName.max_risk_per_trade ∷ RiskRuleName.daily_loss_limit
          ∷ RiskRuleName.max_positions ∷ RiskRuleName.max_lot_exposure ∷ RiskRuleName.spread_check
          ∷ RiskRuleName.slippage_check ∷ RiskRuleName.trailing_drawdown ∷ []))
        × (v.rejected_by ≡ first_failed v.rules_checked)
        × (v.approved ≡ true ↔ v.rejected_by ≡ none)
        × (v.approved ≡ (
            check_max_risk_per_trade N m s a
            && (check_daily_loss_limit N m a
                && (check_max_positions N m a
                    && (check_max_lot_exposure N m s a
                        && (check_spread N m s.metadata.spread_at_generation m.max_spread
                            && (check_slippage N m s.metadata.volatility_ratio m.max_slippage
                                && check_trailing_drawdown N m a)))))))
  unfolding validate checked note all_passed
  validate_decides m show_int now s a =
      let (h, k) = approved_iff m show_int now s a in
      (refl, h, k, rw (and_true (check_trailing_drawdown N m a)) refl)
