-- ===== src/Trading/Worker/Diagnosis.antt =====
-- When the diagnosis of an account sends an order. (account_worker.py, `simulate_signal`)
use clartt_capital.Common.{
  ℕ, ◌≡◌, ◌⊎◌, inl, inr, refl, sym, ap, ◌∙◌, subst, Bool, true, false, not, ◌&&◌, ◌||◌, none, some,
  List, [], ◌∷◌, ◌++◌, String, str_eq, Bool-cases, Option-cases, arith, if◌then◌else◌,
}
use clartt_capital.Floats.{Floats}
use clartt_capital.Breaker.{Outcome-cases}
use clartt_capital.Trading.Models.{Signal, SignalDirection}
use clartt_capital.Trading.Risk.{validate}
use clartt_capital.Trading.Worker.Models.{Desk, Worker}
use clartt_capital.Trading.Worker.Cycle.{is_filled, symbol_for}
use clartt_capital.Trading.Worker.Synthetic.{
  Plumbing, Report, Bench, rec, first_gates, price_of, levels_at, synthetic,
}
use clartt_capital.Trading.Worker.Simulate.{
  keep_fill, place, order, finish, price_and_finish, ask_autopilot, simulate_signal,
}

-- Every step but the execution succeeded.
abbrev pub gates_passed : List (String × Bool) → Bool
gates_passed [] = true
gates_passed ((name, ok) ∷ steps) = (str_eq name "execution" || ok) && gates_passed steps

gates_passed-snoc :
    (steps : List (String × Bool)) (name : String) (ok : Bool)
    → gates_passed (steps ++ ((name, ok) ∷ []))
      ≡ (gates_passed steps && (str_eq name "execution" || ok))
gates_passed-snoc [] name ok = ground arith
gates_passed-snoc ((n, o) ∷ steps) name ok = ground (arith, gates_passed-snoc steps name ok)

passed_execution :
    (steps : List (String × Bool)) (ok : Bool)
    → gates_passed steps ≡ true
    → gates_passed (steps ++ (("execution", ok) ∷ [])) ≡ true
passed_execution steps ok h = gates_passed-snoc steps "execution" ok ∙ ap (λ b. b && true) h

passed_step :
    (steps : List (String × Bool)) (name : String)
    → gates_passed steps ≡ true
    → gates_passed (steps ++ ((name, true) ∷ [])) ≡ true
passed_step steps name h = ground (arith, gates_passed-snoc steps name true)

first_gates_passed :
    (N : Floats) (active enabled : Bool)
    → (not active && enabled) ≡ true
    → gates_passed (first_gates {N = N} active enabled).steps ≡ true
unfolding first_gates rec
first_gates_passed N active enabled h = ground arith

module _ {N : Floats} (X : Desk N) (C : Plumbing X) (show_int : ℕ → String) where
  -- A live order was asked for, every gate was passed, and one order was sent; or it was not live or
  -- would not trade, and no order was sent or reported.
  abbrev pub Ordered : (place_live : Bool) → Bench X → Bench X → Report N → Type 0
  Ordered place_live w w' r =
      ((w'.sent ≡ w.sent) × (r.placed ≡ false) × ((place_live ≡ false) ⊎ (r.would_trade ≡ false)))
      ⊎ ((s : Signal N) × (place_live ≡ true)
          × (r.would_trade ≡ true)
          × (gates_passed r.steps ≡ true)
          × (w'.sent ≡ w.sent ++ (s ∷ [])))

  place-Ordered :
      (k : Worker N) (s : Signal N) (r : Report N) (w w0 : Bench X)
      → w.sent ≡ w0.sent
      → r.would_trade ≡ true
      → gates_passed r.steps ≡ true
      → let (w', r') = place X C show_int k s r w in Ordered true w0 w' r'
  unfolding place rec
  place-Ordered k s r w w0 e t g =
      let (st, out) = X.execute s k.account w.state in
      elim (Outcome-cases out) [
        | inr (x, h) ↦
            rw (h, place)
              (inr (s, refl, t, passed_execution r.steps false g, ap (λ l. l ++ (s ∷ [])) e))
        | inl (o, h) ↦ elim (Outcome-cases (keep_fill X C show_int k s o st).1) [
          | inr (x, f) ↦
              rw (h, place)
                (rw f (
                  inr (
                    s,
                    refl,
                    t,
                    passed_execution (r.steps ++ (("execution", is_filled o.status) ∷ [])) false
                        (passed_execution r.steps (is_filled o.status) g),
                    ap (λ l. l ++ (s ∷ [])) e,
                  )))
          | inl (x, f) ↦
              rw (h, place)
                (rw f (
                  inr (
                    s,
                    refl,
                    t,
                    passed_execution r.steps (is_filled o.status) g,
                    ap (λ l. l ++ (s ∷ [])) e,
                  )))
        ]
      ]

  order-Ordered :
      (k : Worker N) (live : Bool) (s : Signal N) (r : Report N) (w w0 : Bench X)
      → w.sent ≡ w0.sent
      → r.placed ≡ false
      → (r.would_trade ≡ true → gates_passed r.steps ≡ true)
      → let (w', r') = order X C show_int k live s r w in Ordered live w0 w' r'
  unfolding order rec
  order-Ordered k false s r w w0 e p g = inl (e, p, inl refl)
  order-Ordered k true s r w w0 e p g =
      let Good = λ (b : Bool).
        let c = if b then place X C show_int k s r w else (w, rec "execution" false r) in
        Ordered true w0 c.0 c.1 in
      elim (Bool-cases r.would_trade) [
        | inl h ↦ subst Good (sym h) (place-Ordered k s r w w0 e h (g h))
        | inr h ↦ subst Good (sym h) (inl (e, p, inr h))
      ]

  finish-Ordered :
      (k : Worker N) (live open_gates : Bool) (s : Signal N) (r : Report N) (w w0 : Bench X)
      → w.sent ≡ w0.sent
      → r.placed ≡ false
      → (open_gates ≡ true → gates_passed r.steps ≡ true)
      → let (w', r') = finish X C show_int k live open_gates s r w in Ordered live w0 w' r'
  unfolding finish rec
  finish-Ordered k live open_gates s r w w0 e p g =
      let now = (X.now w.state).1 in
      let approved = (validate N k.risk_manager show_int now s k.account).approved in
      order-Ordered k live s
        (record (rec "risk" approved r) { would_trade = open_gates && approved })
        (record w { state = (X.now w.state).0 }) w0 e p
        (λ h. ground (arith, gates_passed-snoc r.steps "risk" approved, g))

  price_and_finish-Ordered :
      (k : Worker N) (id created_at instrument : String) (d : SignalDirection)
      (live open_gates : Bool) (c : C.Client) (r : Report N) (w w0 : Bench X)
      → w.sent ≡ w0.sent
      → r.placed ≡ false
      → r.would_trade ≡ false
      → (open_gates ≡ true → gates_passed r.steps ≡ true)
      → let (w', r') =
          price_and_finish X C show_int k id created_at instrument d live open_gates c r w in
        Ordered live w0 w' r'
  unfolding price_and_finish rec
  price_and_finish-Ordered k id created_at instrument d live open_gates c r w w0 e p n g =
      let symbol : String = elim (symbol_for instrument k.broker_symbol_map) [
        | none ↦ instrument
        | some t ↦ t
      ] in
      let (st, out) = C.connect_with_retry k.account c w.state in
      let (st', tick) = C.get_symbol_info_tick c symbol st in
      let connected = rec "broker_connect" true r in
      elim (Outcome-cases out) [
        | inr (x, h) ↦ rw (h, price_and_finish) (inl (e, p, inr n))
        | inl (x, h) ↦ elim (Option-cases (price_of N tick)) [
          | inl f ↦ rw (h, price_and_finish) (rw f (inl (e, p, inr n)))
          | inr (price, f) ↦
              let l = levels_at N d price in
              rw (h, price_and_finish)
                (rw f (
                  finish-Ordered k live open_gates (synthetic k id created_at instrument d l)
                    (record (rec "current_price" true connected) { signal = some l })
                    (record w { state = st' }) w0 e p
                    (λ o.
                      passed_step connected.steps "current_price"
                        (passed_step r.steps "broker_connect" (g o)))))
        ]
      ]

  -- The diagnosis sends exactly one order, with every gate in its report passed, if a live one was
  -- asked for and its report says that it would trade; if one of these fails it sends none and
  -- reports none as placed.
  pub simulate_signal-Ordered :
      (k : Worker N) (id created_at instrument : String) (d : SignalDirection) (live : Bool)
      (w : Bench X)
      → let (w', r) = simulate_signal X C show_int k id created_at instrument d live w in
        Ordered live w w' r
  unfolding simulate_signal rec first_gates
  simulate_signal-Ordered k id created_at instrument d live w =
      let (st, active) = X.kill_switch_active w.state in
      let (st', enabled) = ask_autopilot X C show_int k st in
      elim (Option-cases (C.resolve_client instrument k.account)) [
        | inl n ↦ rw (n, simulate_signal) (inl (refl, refl, inr refl))
        | inr (c, f) ↦
            rw (f, simulate_signal)
              (let gated : Report N = first_gates active enabled in
                price_and_finish-Ordered k id created_at instrument d live (not active && enabled) c
                  (rec "broker_resolve" true gated) (record w { state = st' }) w refl refl refl
                  (λ o.
                    passed_step gated.steps "broker_resolve"
                      (first_gates_passed N active enabled o)))
      ]
