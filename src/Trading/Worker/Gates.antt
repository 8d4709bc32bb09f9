-- ===== src/Trading/Worker/Gates.antt =====
-- The gates of a cycle: the kill switch, the autopilot and the signals that pass them.
-- (account_worker.py, `_process_one_cycle`)
use clartt_capital.Common.{
  ℕ, ◌≡◌, refl, ap, subst, ◌∙◌, inl, inr, true, false, Option, none, some, String, Bool-cases,
  Option-cases, if_both, arith,
}
use clartt_capital.Floats.{Floats}
use clartt_capital.Breaker.{Outcome, Outcome-cases, returned, raised}
use clartt_capital.Trading.Models.{Signal, TradeExecutionResult}
use clartt_capital.Trading.Consumer.{Stream, Inbox, Call, Call-cases, ends, never, consume}
use clartt_capital.Trading.Worker.Models.{Desk, Worker, World}
use clartt_capital.Trading.Worker.Cycle.{
  drain, handle, autopilot_gate, next_signal, proceed, process_one_cycle,
}
use clartt_capital.Trading.Worker.Trades.{Traded, Handled, handle_decides}

module _ {N : Floats} (R : Stream N) (X : Desk N) (show_int : ℕ → String) where
  -- A signal that was consumed has been traded.
  abbrev pub Consumed : Worker N → World R X → TradeExecutionResult N → Type 0
  Consumed k w' r =
      (id : String) × (s : Signal N) × (w0 : World R X) × (i : Inbox R) × (consume R
          k.poll_timeout_ms i
        ≡ (w0.inbox, ends (returned (some (id, s)))))
      × Traded R X show_int k id s w0 w' r

  abbrev NextTraded :
      Worker N → World R X → Call (Outcome (Option (TradeExecutionResult N))) → Type 0
  NextTraded k w' (ends (returned (some r))) = Consumed k w' r
  NextTraded k w' (ends (returned none)) = Unit {0}
  NextTraded k w' (ends (raised e)) = Unit {0}
  NextTraded k w' never = Unit {0}

  Handled-NextTraded :
      (k : Worker N) (id : String) (s : Signal N) (w0 w' : World R X) (i : Inbox R)
      (out : Outcome (Option (TradeExecutionResult N)))
      → consume R k.poll_timeout_ms i ≡ (w0.inbox, ends (returned (some (id, s))))
      → Handled R X show_int k id s w0 w' out
      → NextTraded k w' (ends out)
  Handled-NextTraded k id s w0 w' i (returned (some r)) e h = (id, s, w0, i, e, h)
  Handled-NextTraded k id s w0 w' i (returned none) e h = tt
  Handled-NextTraded k id s w0 w' i (raised x) e h = tt

  next_signal-NextTraded :
      (k : Worker N) (w : World R X)
      → let (w', out) = next_signal R X show_int k w in NextTraded k w' out
  unfolding next_signal
  next_signal-NextTraded k w =
      let (inbox, c) = consume R k.poll_timeout_ms w.inbox in
      let w0 : World R X = record w { inbox = inbox } in
      elim (Call-cases c) [
        | inl e ↦ rw (e, next_signal) tt
        | inr (r, e) ↦ elim (Outcome-cases r) [
          | inr (x, f) ↦ rw (e ∙ ap ends f, next_signal) tt
          | inl (m, f) ↦ elim (Option-cases m) [
            | inl n ↦ rw (e ∙ ap ends (f ∙ ap returned n), next_signal) tt
            | inr ((id, s), n) ↦
                let found = e ∙ ap ends (f ∙ ap returned n) in
                rw (found, next_signal)
                  (let (w', out) = handle R X show_int k id s w0 in
                    Handled-NextTraded k id s w0 w' w.inbox out (ap (λ o. (inbox, o)) found)
                      (handle_decides R X show_int k id s w0))
          ]
        ]
      ]

  -- What a cycle that ends in a trade has gone through.
  abbrev pub Through :
      Worker N
      → World R X
      → (Worker N × World R X)
      → Call (Outcome (Option (TradeExecutionResult N)))
      → Type 0
  Through k w (k', w') (ends (returned (some r))) =
      ((X.kill_switch_active w.state).1 ≡ false)
      × (X.has_autopilot ≡ true
          → (X.autopilot_enabled k.account.id (X.kill_switch_active w.state).0).1 ≡ true)
      × Consumed k' w' r
  Through k w (k', w') (ends (returned none)) = Unit {0}
  Through k w (k', w') (ends (raised e)) = Unit {0}
  Through k w (k', w') never = Unit {0}

  gate_enabled :
      (k : Worker N) (st : X.State)
      → (autopilot_gate R X show_int k st).1 ≡ true
      → X.has_autopilot ≡ true
      → (X.autopilot_enabled k.account.id st).1 ≡ true
  unfolding autopilot_gate
  gate_enabled k st h a = ground arith

  open-Through :
      (k0 k : Worker N) (w0 w' : World R X) (out : Call (Outcome (Option (TradeExecutionResult N))))
      → (X.kill_switch_active w0.state).1 ≡ false
      → (X.has_autopilot ≡ true
          → (X.autopilot_enabled k0.account.id (X.kill_switch_active w0.state).0).1 ≡ true)
      → NextTraded k w' out
      → Through k0 w0 (k, w') out
  open-Through k0 k w0 w' (ends (returned (some r))) off on h = (off, on, h)
  open-Through k0 k w0 w' (ends (returned none)) off on h = tt
  open-Through k0 k w0 w' (ends (raised e)) off on h = tt
  open-Through k0 k w0 w' never off on h = tt

  proceed-Through :
      (k0 k : Worker N) (w0 w : World R X)
      → (X.kill_switch_active w0.state).1 ≡ false
      → k.account.id ≡ k0.account.id
      → w.state ≡ (X.kill_switch_active w0.state).0
      → let ((k', w'), out) = proceed R X show_int k w in Through k0 w0 (k', w') out
  unfolding proceed
  proceed-Through k0 k w0 w off same at =
      let ((k1, st), go) = autopilot_gate R X show_int k w.state in
      let w1 : World R X = record w { state = st } in
      let (w2, out) = next_signal R X show_int k1 w1 in
      elim (Bool-cases go) [
        | inl e ↦
            rw (e, proceed)
              (open-Through k0 k1 w0 w2 out off
                (λ a.
                  subst (λ st. (X.autopilot_enabled k0.account.id st).1 ≡ true) at
                    (subst (λ i. (X.autopilot_enabled i w.state).1 ≡ true) same
                      (gate_enabled k w.state e a)))
                (next_signal-NextTraded k1 w1))
        | inr e ↦ rw (e, proceed) tt
      ]

  -- A cycle that returns a trade was let through by the kill switch at its start and by the autopilot
  -- of its account after that, if there is one, and traded a signal that it had consumed.
  pub cycle_trades :
      (fuel : ℕ) (k : Worker N) (w : World R X)
      → let ((k', w'), out) = process_one_cycle R X show_int fuel k w in Through k w (k', w') out
  unfolding process_one_cycle
  cycle_trades fuel k w =
      let w1 : World R X = record w { state = (X.kill_switch_active w.state).0 } in
      let (inbox, drained) = drain R fuel 0 w1.inbox in
      let w2 : World R X = record w1 { inbox = inbox } in
      let lifted = record k { was_kill_switched = false } in
      elim (Bool-cases (X.kill_switch_active w.state).1) [
        | inl e ↦ rw (e, process_one_cycle) tt
        | inr e ↦
            rw (e, process_one_cycle)
              (if_both
                (λ (c : (Worker N × World R X) × Call (Outcome (Option (TradeExecutionResult N)))).
                  Through k w c.0 c.1)
                k.was_kill_switched _ _
                (elim (Call-cases drained) [
                  | inl d ↦ rw d tt
                  | inr (o, d) ↦ elim (Outcome-cases o) [
                    | inl (n, f) ↦ rw (d ∙ ap ends f) (proceed-Through k lifted w w2 e refl refl)
                    | inr (x, f) ↦ rw (d ∙ ap ends f) tt
                  ]
                ])
                (proceed-Through k k w w1 e refl refl))
      ]
