-- ===== src/Agents/Equity/Drawdown.antt =====
-- What a check does to the peak and to the pause. (equity_monitor.py, `check`)
use clartt_capital.Common.{
  ◌≡◌, ◌⊎◌, inl, inr, refl, sym, ap, ◌∙◌, Bool, true, false, not, Option, none, some, List, [], ◌∷◌,
  ◌++◌, String, Bool-cases, append-nil, arith,
}
use clartt_capital.Floats.{Floats, IsLawful}
use clartt_capital.Redis.Values.{RedisValues}
use clartt_capital.Redis.Values
use clartt_capital.Agents.Equity.{
  Config, Event, pause_activated, pause_deactivated, World, Status, checked, unavailable, raised,
  drawdown, get_hwm, is_paused, activate_pause, deactivate_pause, decide, remember, check,
}
use clartt_capital.Agents.Equity.Store.{
  hwm-activate, hwm-deactivate, paused-activate, paused-deactivate, hwm-remember, paused-remember,
  published-remember, raised_grows, raised_settles,
}

-- The answer of a check, from the equity, the peak and the pause.
abbrev pub reported : (N : Floats) → N.F → N.F → Bool → Status N
reported N equity peak paused = checked (record {
  paused = paused;
  drawdown_pct = drawdown N peak equity;
  hwm = peak;
  current_equity = equity;
})

-- Whether the account is paused after a check, from the state before and the drawdown.
abbrev pub next_pause : {N : Floats} → Config N → Bool → N.F → Bool
next_pause {N = N} c true pct = not (N.lt pct c.recovery_pct)
next_pause {N = N} c false pct = N.le c.max_drawdown_pct pct

abbrev pub told : (N : Floats) → Bool → Bool → String → N.F → N.F → N.F → List (Event N)
told N false true id h e p = pause_activated id h e p ∷ []
told N true false id h e p = pause_deactivated id h e p ∷ []
told N _ _ id h e p = []

module _ {R : RedisValues} (LR : Values.IsLawful R) {N : Floats} (L : IsLawful N) where
  told_same : (b : Bool) (id : String) (h e p : N.F) → told N b b id h e p ≡ []
  told_same true id h e p = refl
  told_same false id h e p = refl

  decide-next_pause :
      (c : Config N) (id : String) (h e : N.F) (w : World R N) (before : Bool)
      → is_paused id w ≡ before
      → let (w', paused) = decide c id h e w in
        let next = next_pause c before (drawdown N h e) in
        (paused ≡ next)
        × (is_paused id w' ≡ next)
        × (get_hwm id w' ≡ get_hwm id w)
        × (w'.published ≡ w.published ++ told N before next id h e (drawdown N h e))
  unfolding decide activate_pause deactivate_pause
  decide-next_pause c id h e w true b = elim (Bool-cases (N.lt (drawdown N h e) c.recovery_pct)) [
    | inl l ↦
        rw (b, l) (refl, paused-deactivate LR L id h e _ w, hwm-deactivate LR L id h e _ w, refl)
    | inr l ↦ rw (b, l) (refl, b, refl, sym (append-nil w.published))
  ]
  decide-next_pause c id h e w false b =
      elim (Bool-cases (N.le c.max_drawdown_pct (drawdown N h e))) [
        | inl l ↦
            rw (b, l) (refl, paused-activate LR L id h e _ w, hwm-activate LR L id h e _ w, refl)
        | inr l ↦ rw (b, l) (refl, b, refl, sym (append-nil w.published))
      ]

  -- After a check with an equity, the peak that is stored is the old one or, if the equity is
  -- greater, the equity. The account is paused if it was and the drawdown from that peak is not below
  -- the recovery threshold, or if it was not and the drawdown has reached the maximum. What is stored
  -- is what the answer says, and an event is published exactly when the pause changes. A check without
  -- an equity changes nothing.
  pub check_hysteresis :
      (c : Config N) (id : String) (equity : N.F) (w : World R N)
      → let (w', status) = check c id (some equity) w in
        let peak = raised N (get_hwm id w) equity in
        let pct = drawdown N peak equity in
        let next = next_pause c (is_paused id w) pct in
        (status
          ≡ checked
              (record { paused = next; drawdown_pct = pct; hwm = peak; current_equity = equity }))
        × (get_hwm id w' ≡ peak)
        × (is_paused id w' ≡ next)
        × (w'.published ≡ w.published ++ told N (is_paused id w) next id peak equity pct)
        × (check c id none w ≡ (w, unavailable (is_paused id w)))
  unfolding check
  check_hysteresis c id equity w =
      let peak = raised N (get_hwm id w) equity in
      let (answer, stored, kept, events) =
        decide-next_pause c id peak equity (remember id equity w) (is_paused id w)
          (paused-remember LR L id equity w) in
      (
        ap (reported N equity peak) answer,
        kept ∙ hwm-remember LR L id equity w,
        stored,
        events
            ∙ ap
                (λ l.
                  l
                  ++ told N (is_paused id w)
                      (next_pause c (is_paused id w) (drawdown N peak equity)) id peak equity
                      (drawdown N peak equity))
                (published-remember LR L id equity w),
        refl,
      )

  -- The peak that is stored for an account never falls at a check: it stays or becomes greater.
  pub peak_never_falls :
      (c : Config N) (id : String) (equity : Option N.F) (w : World R N)
      → let w' = (check c id equity w).0 in
        (get_hwm id w' ≡ get_hwm id w) ⊎ (N.lt (get_hwm id w) (get_hwm id w') ≡ true)
  unfolding check
  peak_never_falls c id none w = inl refl
  peak_never_falls c id (some equity) w =
      let (_, stored, _, _, _) = check_hysteresis c id equity w in
      elim (raised_grows LR L (get_hwm id w) equity) [
        | inl e ↦ inl (stored ∙ e)
        | inr l ↦ inr (rw stored l)
      ]

  next_pause_settles :
      (c : Config N) (before : Bool) (pct : N.F)
      → N.le c.recovery_pct c.max_drawdown_pct ≡ true
      → next_pause c (next_pause c before pct) pct ≡ next_pause c before pct
  next_pause_settles c true pct h = elim (Bool-cases (N.lt pct c.recovery_pct)) [
    | inl l ↦ rw l (L.not_le_of_lt _ _ (L.lt_of_lt_of_le _ _ _ l h))
    | inr l ↦ rw (l, l) refl
  ]
  next_pause_settles c false pct h = elim (Bool-cases (N.le c.max_drawdown_pct pct)) [
    | inl l ↦ rw l (ap not (not_below l))
    | inr l ↦ rw (l, l) refl
  ]
    where
      not_below : N.le c.max_drawdown_pct pct ≡ true → N.lt pct c.recovery_pct ≡ false
      not_below l = elim (Bool-cases (N.lt pct c.recovery_pct)) [
        | inl b ↦ let a = sym l ∙ L.not_le_of_lt _ _ (L.lt_of_lt_of_le _ _ _ b h) in ground arith
        | inr b ↦ b
      ]

  -- A check that finds its own peak and a pause that stays.
  check_still :
      (c : Config N) (id : String) (equity peak : N.F) (paused : Bool) (w : World R N)
      → raised N (get_hwm id w) equity ≡ peak
      → is_paused id w ≡ paused
      → next_pause c paused (drawdown N peak equity) ≡ paused
      → let (w', status) = check c id (some equity) w in
        (status ≡ reported N equity peak paused)
        × (get_hwm id w' ≡ peak)
        × (is_paused id w' ≡ paused)
        × (w'.published ≡ w.published)
  check_still c id equity peak paused w e b s =
      let (status, stored, kept, events, _) = check_hysteresis c id equity w in
      let top = raised N (get_hwm id w) equity in
      let pct = λ (h : N.F). drawdown N h equity in
      let next = λ (h : N.F). next_pause c (is_paused id w) (pct h) in
      let same : next (raised N (get_hwm id w) equity) ≡ paused =
        ap next e ∙ ap (λ q. next_pause c q (pct peak)) b ∙ s in
      (
        status
            ∙ ap (λ h. reported N equity h (next (raised N (get_hwm id w) equity))) e
            ∙ ap (reported N equity peak) same,
        stored ∙ e,
        kept ∙ same,
        events
            ∙ ap (λ q. w.published ++ told N (is_paused id w) q id top equity (pct top))
                (same ∙ sym b)
            ∙ ap (λ l. w.published ++ l) (told_same (is_paused id w) id top equity (pct top))
            ∙ append-nil w.published,
      )

  -- When the recovery threshold is not above the maximal drawdown, the monitor does not flap: a second
  -- check with the same equity answers what the first one did, leaves the peak and the pause, and
  -- publishes nothing.
  pub check_settles :
      (c : Config N) (id : String) (equity : N.F) (w : World R N)
      → N.le c.recovery_pct c.max_drawdown_pct ≡ true
      → let (w', status) = check c id (some equity) w in
        let (w'', again) = check c id (some equity) w' in
        (again ≡ status)
        × (get_hwm id w'' ≡ get_hwm id w')
        × (is_paused id w'' ≡ is_paused id w')
        × (w''.published ≡ w'.published)
  check_settles c id equity w h =
      let peak = raised N (get_hwm id w) equity in
      let (status, stored, kept, _, _) = check_hysteresis c id equity w in
      let (status', stored', kept', events') =
        check_still c id equity peak (next_pause c (is_paused id w) (drawdown N peak equity))
          (check c id (some equity) w).0
          (ap (λ x. raised N x equity) stored ∙ raised_settles LR L (get_hwm id w) equity) kept
          (next_pause_settles c (is_paused id w) (drawdown N peak equity) h) in
      (status' ∙ sym status, stored' ∙ sym stored, kept' ∙ sym kept, events')
