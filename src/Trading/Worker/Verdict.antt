-- ===== src/Trading/Worker/Verdict.antt =====
-- What the verdict of the diagnosis rests on. (account_worker.py, `simulate_signal`)
use clartt_capital.Common.{
  ℕ, ◌≡◌, inl, inr, refl, sym, ◌∙◌, Bool, true, false, not, ◌&&◌, none, some, String, Option-cases,
  if_both, arith,
}
use clartt_capital.Floats.{Floats}
use clartt_capital.Breaker.{Outcome-cases}
use clartt_capital.Trading.Models.{Signal, SignalDirection}
use clartt_capital.Trading.Risk.{validate}
use clartt_capital.Trading.Worker.Models.{Desk, Worker}
use clartt_capital.Trading.Worker.Cycle.{symbol_for}
use clartt_capital.Trading.Worker.Synthetic.{
  Plumbing, Report, Bench, rec, first_gates, price_of, levels_at, synthetic,
}
use clartt_capital.Trading.Worker.Simulate.{
  keep_fill, place, order, finish, price_and_finish, ask_autopilot, simulate_signal,
}

both_true : (a b : Bool) → (a && b) ≡ true → (a ≡ true) × (b ≡ true)
both_true a b h = ground arith

module _ {N : Floats} (X : Desk N) (C : Plumbing X) (show_int : ℕ → String) where
  place_would :
      (k : Worker N) (s : Signal N) (r : Report N) (w : Bench X)
      → (place X C show_int k s r w).1.would_trade ≡ r.would_trade
  unfolding place rec
  place_would k s r w =
      let (st, out) = X.execute s k.account w.state in
      elim (Outcome-cases out) [
        | inr (x, h) ↦ rw (h, place) refl
        | inl (o, h) ↦ elim (Outcome-cases (keep_fill X C show_int k s o st).1) [
          | inr (x, f) ↦ rw (h, place) (rw f refl)
          | inl (x, f) ↦ rw (h, place) (rw f refl)
        ]
      ]

  order_would :
      (k : Worker N) (live : Bool) (s : Signal N) (r : Report N) (w : Bench X)
      → (order X C show_int k live s r w).1.would_trade ≡ r.would_trade
  unfolding order rec
  order_would k live s r w =
      let Same = λ (c : Bench X × Report N). c.1.would_trade ≡ r.would_trade in
      if_both Same live _ _ (if_both Same r.would_trade _ _ (place_would k s r w) refl) refl

  finish_would :
      (k : Worker N) (live open_gates : Bool) (s : Signal N) (r : Report N) (w : Bench X)
      → let now = (X.now w.state).1 in
        (finish X C show_int k live open_gates s r w).1.would_trade
        ≡ (open_gates && (validate N k.risk_manager show_int now s k.account).approved)
  unfolding finish
  finish_would k live open_gates s r w =
      let now = (X.now w.state).1 in
      let approved = (validate N k.risk_manager show_int now s k.account).approved in
      order_would k live s (record (rec "risk" approved r) { would_trade = open_gates && approved })
        (record w { state = (X.now w.state).0 })

  -- The synthetic entry at that price passes the risk rules at that time.
  abbrev pub Approved :
      Worker N → (id created_at instrument : String) → SignalDirection → N.F → ℕ → Type 0
  Approved k id created_at instrument d price now =
      let s = synthetic k id created_at instrument d (levels_at N d price) in
      (validate N k.risk_manager show_int now s k.account).approved ≡ true

  price_and_finish_would :
      (k : Worker N) (id created_at instrument : String) (d : SignalDirection)
      (live open_gates : Bool) (c : C.Client) (r : Report N) (w : Bench X)
      → r.would_trade ≡ false
      → (price_and_finish X C show_int k id created_at instrument d live open_gates c r
          w).1.would_trade
        ≡ true
      → (open_gates ≡ true)
        × ((price : N.F) × (now : ℕ) × Approved k id created_at instrument d price now)
  unfolding price_and_finish finish rec
  price_and_finish_would k id created_at instrument d live open_gates c r w f =
      let symbol : String = elim (symbol_for instrument k.broker_symbol_map) [
        | none ↦ instrument
        | some t ↦ t
      ] in
      let (st, out) = C.connect_with_retry k.account c w.state in
      let (st', tick) = C.get_symbol_info_tick c symbol st in
      elim (Outcome-cases out) [
        | inr (x, h) ↦ rw (h, price_and_finish) (λ t. ground arith)
        | inl (x, h) ↦ elim (Option-cases (price_of N tick)) [
          | inl n ↦ rw (h, price_and_finish) (rw n (λ t. ground arith))
          | inr (price, e) ↦
              let l = levels_at N d price in
              let s = synthetic k id created_at instrument d l in
              let r' = record (rec "current_price" true (rec "broker_connect" true r)) {
                signal = some l;
              } in
              let w' : Bench X = record w { state = st' } in
              rw (h, price_and_finish)
                (rw e (λ t.
                  let (o, a) =
                    both_true open_gates
                      (validate N k.risk_manager show_int (X.now st').1 s k.account).approved
                      (sym (finish_would k live open_gates s r' w') ∙ t) in
                  (o, (price, (X.now st').1, a))))
        ]
      ]

  -- The diagnosis says that an entry would trade only if the kill switch is off, the autopilot of the
  -- account is on, where there is one, and the risk rules approve a synthetic entry at some price.
  pub simulate_signal_would :
      (k : Worker N) (id created_at instrument : String) (d : SignalDirection) (live : Bool)
      (w : Bench X)
      → (simulate_signal X C show_int k id created_at instrument d live w).1.would_trade ≡ true
      → let (st, active) = X.kill_switch_active w.state in
        (active ≡ false)
        × (X.has_autopilot ≡ true → (X.autopilot_enabled k.account.id st).1 ≡ true)
        × ((price : N.F) × (now : ℕ) × Approved k id created_at instrument d price now)
  unfolding simulate_signal rec first_gates ask_autopilot
  simulate_signal_would k id created_at instrument d live w =
      let (st, active) = X.kill_switch_active w.state in
      let (st', enabled) = ask_autopilot X C show_int k st in
      elim (Option-cases (C.resolve_client instrument k.account)) [
        | inl n ↦ rw (n, simulate_signal) (λ t. ground arith)
        | inr (c, f) ↦
            rw (f, simulate_signal)
              (λ t.
                let gated : Report N = first_gates active enabled in
                let (o, a) =
                  price_and_finish_would k id created_at instrument d live (not active && enabled) c
                    (rec "broker_resolve" true gated) (record w { state = st' }) refl t in
                let (off, on) = both_true (not active) enabled o in (ground arith, ground arith, a))
      ]
