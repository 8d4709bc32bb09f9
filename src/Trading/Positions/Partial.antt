-- ===== src/Trading/Positions/Partial.antt =====
-- The partial close over the evaluations of a position. (position_monitor.py, `_evaluate_position` and
-- `_partial_close`)
use clartt_capital.Common.{
  ◌≡◌, refl, ◌∙◌, sym, ◌⊎◌, inl, inr, true, false, List, [], ◌∷◌, Bool-cases, arith,
}
use clartt_capital.Floats.{Floats}
use clartt_capital.Trading.ExitRules.{InstrumentSpecs}
use clartt_capital.Trading.Positions.Models.{TrackedPosition, lots_to_close}
use clartt_capital.Trading.Positions.Broker.{Services, World}
use clartt_capital.Trading.Positions.Rules.{
  break_even, trailing_stop, atr_trailing_stop, partial_close, adjust, time_is_up, apply_rules,
}
use clartt_capital.Trading.Positions.Stops.{Poll, evaluated}

-- What the partial close reads.
pub record SameSize {N : Floats} (p q : TrackedPosition N) : Type 0 where
  pub current : q.current_size ≡ p.current_size
  pub original : q.original_size ≡ p.original_size
  pub rules : q.exit_rules ≡ p.exit_rules
  pub done : q.partial_close_done ≡ p.partial_close_done

SameSize-trans :
    {N : Floats} (p q r : TrackedPosition N) → SameSize p q → SameSize q r → SameSize p r
SameSize-trans p q r h k = record {
  current = k.current ∙ h.current;
  original = k.original ∙ h.original;
  rules = k.rules ∙ h.rules;
  done = k.done ∙ h.done;
}

-- The size is as before, or the partial close has taken its lots from it.
abbrev pub Cut : {N : Floats} → TrackedPosition N → TrackedPosition N → Type 0
Cut {N} p q =
    SameSize p q
    ⊎ ((p.partial_close_done ≡ false)
        × (q.partial_close_done ≡ true)
        × (q.current_size ≡ N.sub p.current_size (lots_to_close N p)))

lots-SameSize :
    {N : Floats} (p q : TrackedPosition N) → SameSize p q → lots_to_close N q ≡ lots_to_close N p
unfolding lots_to_close
lots-SameSize p q h = rw (h.rules, h.original, h.current) refl

Cut-trans : {N : Floats} (p q r : TrackedPosition N) → Cut p q → Cut q r → Cut p r
Cut-trans p q r (inl h) (inl k) = inl (SameSize-trans p q r h k)
Cut-trans p q r (inl h) (inr (was, is, e)) =
    inr (sym h.done ∙ was, is, cc (lots-SameSize p q h, h.current))
Cut-trans p q r (inr (was, is, e)) (inl k) = inr (was, k.done ∙ is, k.current ∙ e)
Cut-trans p q r (inr (_, is, _)) (inr (was, _, _)) = absurd (ground arith)

module _ {N : Floats} (X : Services N) where
  module _ (specs : InstrumentSpecs N) (price : N.F) where
    break_even-SameSize :
        (p : TrackedPosition N) (w : World X) → SameSize p (break_even X specs price (p, w)).0
    unfolding break_even
    break_even-SameSize p w = ground arith

    trailing_stop-SameSize :
        (p : TrackedPosition N) (w : World X) → SameSize p (trailing_stop X specs price (p, w)).0
    unfolding trailing_stop
    trailing_stop-SameSize p w = ground arith

    atr-SameSize :
        (p : TrackedPosition N) (w : World X)
        → SameSize p (atr_trailing_stop X specs price (p, w)).0
    unfolding atr_trailing_stop
    atr-SameSize p w = ground arith

    partial_close-Cut :
        (p : TrackedPosition N) (w : World X) → Cut p (partial_close X specs price (p, w)).0
    unfolding partial_close
    partial_close-Cut p w = ground arith

  adjust-Cut :
      (specs : InstrumentSpecs N) (price : N.F) (p : TrackedPosition N) (w : World X)
      → Cut p (adjust X specs price (p, w)).0
  unfolding adjust
  adjust-Cut specs price p w =
      let (b, w1) = break_even X specs price (p, w) in
      let (t, w2) = trailing_stop X specs price (b, w1) in
      let (a, w3) = atr_trailing_stop X specs price (t, w2) in
      let h1 = break_even-SameSize specs price p w in
      let h2 = trailing_stop-SameSize specs price b w1 in
      let h3 = atr-SameSize specs price t w2 in
      Cut-trans p a _ (inl (SameSize-trans p t a (SameSize-trans p b t h1 h2) h3))
        (partial_close-Cut specs price a w3)

  apply_rules-Cut :
      (i : Poll X) (p : TrackedPosition N) → Cut p (apply_rules X i.specs i.price i.now p i.world).0
  unfolding apply_rules
  apply_rules-Cut i p = elim (Bool-cases (time_is_up X i.now p)) [
    | inl up ↦ rw up (inl (record { current = refl; original = refl; rules = refl; done = refl }))
    | inr e ↦ rw e (adjust-Cut i.specs i.price p i.world)
  ]

  -- Over any number of evaluations the partial close is done at most once: the size of the position,
  -- its exit rules and the mark of the partial close are what they were, or the mark is newly set
  -- and the lots of one partial close, computed from the position at the start, are gone.
  pub partial_close_once : (is : List (Poll X)) (p : TrackedPosition N) → Cut p (evaluated X is p)
  unfolding evaluated
  partial_close_once [] p =
      inl (record { current = refl; original = refl; rules = refl; done = refl })
  partial_close_once (i ∷ is) p =
      let q = (apply_rules X i.specs i.price i.now p i.world).0 in
      Cut-trans p q _ (apply_rules-Cut i p) (partial_close_once is q)
