-- ===== src/Trading/Positions/Stops.antt =====
-- The stop loss of a monitored position over its evaluations. (position_monitor.py,
-- `_evaluate_position`, `_modify_sl`)
use clartt_capital.Common.{
  subst, ◌∙◌, ℕ, ◌≡◌, refl, ◌⊎◌, inl, inr, true, false, not, ◌&&◌, List, [], ◌∷◌, Bool-cases, arith,
}
use clartt_capital.Floats.{Floats, IsLawful}
use clartt_capital.Trading.Models.{SignalDirection}
use clartt_capital.Trading.ExitRules.{InstrumentSpecs}
use clartt_capital.Trading.Positions.Models.{TrackedPosition, tighter}
use clartt_capital.Trading.Positions.Broker.{Services, World}
use clartt_capital.Trading.Positions.Rules.{
  move_sl, break_even, trailing_stop, activate_atr, follow_atr, atr_trailing_stop, partial_close,
  adjust, time_is_up, apply_rules,
}

-- The stop loss that is in force is the old one, or one nearer to the profit.
abbrev pub NotLooser : (N : Floats) → SignalDirection → N.F → N.F → Type 0
NotLooser N d new old = (new ≡ old) ⊎ (tighter N d new old ≡ true)

tighter_trans :
    (N : Floats)
    → IsLawful N
    → (d : SignalDirection) (a b c : N.F) → tighter N d a b ≡ true
    → tighter N d b c ≡ true
    → tighter N d a c ≡ true
tighter_trans N l SignalDirection.buy a b c h k = l.lt_of_lt_of_le c b a k (l.le_of_lt b a h)
tighter_trans N l SignalDirection.sell a b c h k = l.lt_of_lt_of_le a b c h (l.le_of_lt b c k)

NotLooser-trans :
    (N : Floats)
    → IsLawful N
    → (d : SignalDirection) (a b c : N.F) → NotLooser N d a b
    → NotLooser N d b c
    → NotLooser N d a c
NotLooser-trans N l d a b c (inl e) k = rw e k
NotLooser-trans N l d a b c (inr h) (inl e) = rw (← e) (inr h)
NotLooser-trans N l d a b c (inr h) (inr k) = inr (tighter_trans N l d a b c h k)

-- Neither the break-even nor the activation of the trailing stop is still to come.
pub record IsArmed {N : Floats} (p : TrackedPosition N) : Type 0 where
  pub break_even : p.exit_rules.break_even.enabled && not p.break_even_applied ≡ false
  pub trailing : p.exit_rules.trailing_stop.enabled && not p.trailing_activated ≡ false

-- What an evaluation of an armed position may do to it.
record IsHeld {N : Floats} (p q : TrackedPosition N) : Type 0 where
  same_direction : q.direction ≡ p.direction
  not_looser : NotLooser N p.direction q.current_sl p.current_sl
  armed : IsArmed q

module _ {N : Floats} (X : Services N) (specs : InstrumentSpecs N) (price : N.F) where
  break_even-armed :
      (p : TrackedPosition N) (w : World X) → IsArmed p → break_even X specs price (p, w) ≡ (p, w)
  unfolding break_even
  break_even-armed p w a = rw a.break_even

  trailing_stop-IsHeld :
      (p : TrackedPosition N) (w : World X)
      → IsArmed p
      → IsHeld p (trailing_stop X specs price (p, w)).0
  unfolding trailing_stop move_sl
  trailing_stop-IsHeld p w a = ground arith

  atr-IsHeld :
      (p : TrackedPosition N) (w : World X)
      → IsArmed p
      → IsHeld p (atr_trailing_stop X specs price (p, w)).0
  unfolding atr_trailing_stop activate_atr follow_atr move_sl
  atr-IsHeld p w a = ground arith

  partial_close-IsHeld :
      (p : TrackedPosition N) (w : World X)
      → IsArmed p
      → IsHeld p (partial_close X specs price (p, w)).0
  unfolding partial_close
  partial_close-IsHeld p w a = ground arith

IsHeld-trans :
    {N : Floats} → IsLawful N → (p q r : TrackedPosition N) → IsHeld p q → IsHeld q r → IsHeld p r
IsHeld-trans {N} l p q r h k = record {
  same_direction = k.same_direction ∙ h.same_direction;
  not_looser =
      NotLooser-trans N l p.direction r.current_sl q.current_sl p.current_sl
        (subst (λ d. NotLooser N d r.current_sl q.current_sl) h.same_direction k.not_looser)
        h.not_looser;
  armed = k.armed;
}

-- What one evaluation finds: the price, the time and the world around it.
pub record Poll {N : Floats} (X : Services N) : Type 0 where
  pub specs : InstrumentSpecs N
  pub price : N.F
  pub now : ℕ
  pub world : World X

module _ {N : Floats} (X : Services N) where
  adjust-IsHeld :
      IsLawful N
      → (specs : InstrumentSpecs N) (price : N.F) (p : TrackedPosition N) (w : World X) → IsArmed p
      → IsHeld p (adjust X specs price (p, w)).0
  unfolding adjust
  adjust-IsHeld l specs price p w a =
      let (t, w1) = trailing_stop X specs price (p, w) in
      let (r, w2) = atr_trailing_stop X specs price (t, w1) in
      let h1 = trailing_stop-IsHeld X specs price p w a in
      let h2 = atr-IsHeld X specs price t w1 h1.armed in
      let h3 = partial_close-IsHeld X specs price r w2 h2.armed in
      rw (break_even-armed X specs price p w a)
        (IsHeld-trans l p r _ (IsHeld-trans l p t r h1 h2) h3)

  apply_rules-IsHeld :
      IsLawful N
      → (i : Poll X) (p : TrackedPosition N) → IsArmed p
      → IsHeld p (apply_rules X i.specs i.price i.now p i.world).0
  unfolding apply_rules
  apply_rules-IsHeld l i p a = elim (Bool-cases (time_is_up X i.now p)) [
    | inl up ↦ rw up (record { same_direction = refl; not_looser = inl refl; armed = a })
    | inr e ↦ rw e (adjust-IsHeld l i.specs i.price p i.world a)
  ]

  -- A position over its evaluations.
  unfoldable pub evaluated : List (Poll X) → TrackedPosition N → TrackedPosition N
  evaluated [] p = p
  evaluated (i ∷ is) p = evaluated is (apply_rules X i.specs i.price i.now p i.world).0

  -- Once the break-even is applied and the trailing stop active, each where its rule is on, the stop
  -- loss is never loosened again: after any number of evaluations, at any prices, with whatever the
  -- broker answers, it is the one before or one nearer to the profit.
  pub stop_only_tightens :
      IsLawful N
      → (is : List (Poll X)) (p : TrackedPosition N) → IsArmed p
      → NotLooser N p.direction (evaluated is p).current_sl p.current_sl
  unfolding evaluated
  stop_only_tightens l [] p a = inl refl
  stop_only_tightens l (i ∷ is) p a =
      let q = (apply_rules X i.specs i.price i.now p i.world).0 in
      let h = apply_rules-IsHeld l i p a in
      NotLooser-trans N l p.direction _ q.current_sl p.current_sl
        (subst (λ d. NotLooser N d (evaluated is q).current_sl q.current_sl) h.same_direction
          (stop_only_tightens l is q h.armed))
        h.not_looser
