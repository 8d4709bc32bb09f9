-- ===== src/Trading/Worker/Trades.antt =====
-- When a cycle of the worker trades, and what it acknowledges. (account_worker.py,
-- `_process_one_cycle`)
use clartt_capital.Common.{
  ℕ, ◌≡◌, if◌then◌else◌, append-nil, sym, refl, ap, subst, ◌⊎◌, inl, inr, Bool, true, false, Option,
  none, some, List, [], ◌∷◌, ◌++◌, String, Bool-cases, arith,
}
use clartt_capital.Floats.{Floats}
use clartt_capital.Breaker.{Outcome, Outcome-cases, returned, raised}
use clartt_capital.Trading.Models.{Signal, TradeExecutionResult, RiskValidationResult}
use clartt_capital.Trading.Risk.{validate}
use clartt_capital.Trading.Consumer.{Stream, Inbox, acknowledge}
use clartt_capital.Trading.Worker.Models.{Desk, Event, risk_evaluated, trade_entry, Worker, World}
use clartt_capital.Trading.Worker.Cycle.{
  assigned, resolve_broker_symbol, publish_risk, done, follow, follow_up, trade, judge, handle,
}

module _ {N : Floats} (R : Stream N) (X : Desk N) (show_int : ℕ → String) where
  abbrev approved_at : ℕ → Worker N → Signal N → Bool
  approved_at now k s = (validate N k.risk_manager show_int now s k.account).approved

  -- The event of the risk validation, if there is an event publisher.
  abbrev pub risk_events : ℕ → Worker N → Signal N → List (Event N)
  risk_events now k s =
      if X.publishes_events
      then risk_evaluated s k.account (validate N k.risk_manager show_int now s k.account) ∷ []
      else []

  -- What running the order of a signal comes to, in a state `st`, after `acked` acknowledgements and
  -- `events`: the executor's result is returned, with the message acknowledged and the trade
  -- published, and the state is what the executor and the steps after it leave. An exception is the
  -- executor's, before the acknowledgement, or comes from a step after it.
  abbrev pub Ran :
      Worker N
      → String
      → Signal N
      → X.State
      → (acked : List String) → (events : List (Event N)) → World R X
      → Outcome (Option (TradeExecutionResult N))
      → Type 0
  Ran k id s st acked events w' (returned (some r)) =
      let (st', out) = X.execute s k.account st in
      (out ≡ returned r)
      × (w'.state ≡ (follow R X show_int k s r st').0)
      × (w'.inbox.acknowledged ≡ acked ++ id ∷ [])
      × (w'.published ≡ events ++ trade_entry s k.account r ∷ [])
  Ran k id s st acked events w' (returned none) = ⊥
  Ran k id s st acked events w' (raised x) =
      let (st', out) = X.execute s k.account st in
      ((out ≡ raised x)
        × (w'.state ≡ st')
        × (w'.inbox.acknowledged ≡ acked)
        × (w'.published ≡ events))
      ⊎ ((r : TradeExecutionResult N) × (out ≡ returned r)
          × ((follow R X show_int k s r st').1 ≡ raised x)
          × (w'.state ≡ (follow R X show_int k s r st').0)
          × (w'.inbox.acknowledged ≡ acked ++ id ∷ [])
          × (w'.published ≡ events ++ trade_entry s k.account r ∷ []))

  -- The signal was assigned, and approved at the time that was read first; its order was run in the
  -- state right after that.
  abbrev pub Handed :
      Worker N
      → String
      → Signal N
      → World R X
      → World R X
      → Outcome (Option (TradeExecutionResult N))
      → Type 0
  Handed k id s w w' out =
      let s' = resolve_broker_symbol k s in
      let (st, now) = X.now w.state in
      (assigned k s ≡ true)
      × (approved_at now k s' ≡ true)
      × Ran k id s' st w.inbox.acknowledged (w.published ++ risk_events now k s') w' out

  abbrev pub Traded :
      Worker N → String → Signal N → World R X → World R X → TradeExecutionResult N → Type 0
  Traded k id s w w' r = Handed k id s w w' (returned (some r))

  -- The signal was not assigned, and the state is as it was; or it was not approved at the time that
  -- was read, and only that reading changed the state. The message is acknowledged all the same, and
  -- no trade is published.
  abbrev pub Passed : Worker N → String → Signal N → World R X → World R X → Type 0
  Passed k id s w w' =
      let s' = resolve_broker_symbol k s in
      let (st, now) = X.now w.state in
      (w'.inbox.acknowledged ≡ w.inbox.acknowledged ++ id ∷ [])
      × (((assigned k s ≡ false) × (w'.published ≡ w.published) × (w'.state ≡ w.state))
          ⊎ ((assigned k s ≡ true)
              × (approved_at now k s' ≡ false)
              × (w'.published ≡ w.published ++ risk_events now k s')
              × (w'.state ≡ st)))

  abbrev pub Handled :
      Worker N
      → String
      → Signal N
      → World R X
      → World R X
      → Outcome (Option (TradeExecutionResult N))
      → Type 0
  Handled k id s w w' (returned (some r)) = Traded k id s w w' r
  Handled k id s w w' (returned none) = Passed k id s w w'
  Handled k id s w w' (raised e) = Handed k id s w w' (raised e)

  publish_risk-published :
      (now : ℕ) (k : Worker N) (s : Signal N) (w : World R X)
      → (publish_risk R X show_int s k.account
          (validate N k.risk_manager show_int now s k.account)
          w).published
        ≡ w.published ++ risk_events now k s
  unfolding publish_risk
  publish_risk-published now k s w = elim (Bool-cases X.publishes_events) [
    | inl e ↦ rw (e, publish_risk) refl
    | inr e ↦ rw (e, publish_risk) (sym (append-nil w.published))
  ]

  publish_risk-inbox :
      (k : Worker N) (s : Signal N) (v : RiskValidationResult) (w : World R X)
      → (publish_risk R X show_int s k.account v w).inbox ≡ w.inbox
  unfolding publish_risk
  publish_risk-inbox k s v w = ground arith

  publish_risk-state :
      (k : Worker N) (s : Signal N) (v : RiskValidationResult) (w : World R X)
      → (publish_risk R X show_int s k.account v w).state ≡ w.state
  unfolding publish_risk
  publish_risk-state k s v w = ground arith

  -- The message is acknowledged and the result is published.
  abbrev after_trade : Worker N → String → Signal N → World R X → TradeExecutionResult N → World R X
  after_trade k id s w r = record w {
    inbox = record w.inbox { acknowledged = w.inbox.acknowledged ++ id ∷ [] };
    state = (X.execute s k.account w.state).0;
    published = w.published ++ trade_entry s k.account r ∷ [];
  }

  follow_up-Ran :
      (k : Worker N) (id : String) (s : Signal N) (w : World R X) (r : TradeExecutionResult N)
      → (X.execute s k.account w.state).1 ≡ returned r
      → let (w', out) = follow_up R X show_int k s r (after_trade k id s w r) in
        Ran k id s w.state w.inbox.acknowledged w.published w' out
  unfolding follow_up
  follow_up-Ran k id s w r e =
      elim (Outcome-cases (follow R X show_int k s r (X.execute s k.account w.state).0).1) [
        | inl (x, f) ↦ rw (f, follow_up) (e, refl, refl, refl)
        | inr (x, f) ↦ rw (f, follow_up) (inr (r, e, f, refl, refl, refl))
      ]

  trade-Ran :
      (k : Worker N) (id : String) (s : Signal N) (w : World R X)
      → let (w', out) = trade R X show_int k id s w in
        Ran k id s w.state w.inbox.acknowledged w.published w' out
  unfolding trade done acknowledge
  trade-Ran k id s w = elim (Outcome-cases (X.execute s k.account w.state).1) [
    | inl (r, e) ↦ rw (e, trade) (follow_up-Ran k id s w r e)
    | inr (x, e) ↦ rw (e, trade) (inl (e, refl, refl, refl))
  ]

  Handed-Handled :
      (k : Worker N) (id : String) (s : Signal N) (w w' : World R X)
      (out : Outcome (Option (TradeExecutionResult N)))
      → Handed k id s w w' out
      → Handled k id s w w' out
  Handed-Handled k id s w w' (returned (some r)) h = h
  Handed-Handled k id s w w' (returned none) h = absurd h.2
  Handed-Handled k id s w w' (raised e) h = h

  verdict-Handled :
      (b : Bool) (k : Worker N) (id : String) (s : Signal N) (w w1 : World R X)
      → assigned k s ≡ true
      → let s' = resolve_broker_symbol k s in
        let (st, now) = X.now w.state in
        approved_at now k s' ≡ b
        → w1.state ≡ st
        → w1.inbox ≡ w.inbox
        → w1.published ≡ w.published ++ risk_events now k s'
        → let (w', out) =
            if b then trade R X show_int k id s' w1 else (done R X show_int id w1, returned none) in
          Handled k id s w w' out
  unfolding done acknowledge
  verdict-Handled true k id s w w1 mine ok at same risk =
      let s' = resolve_broker_symbol k s in
      let events = w.published ++ risk_events (X.now w.state).1 k s' in
      let (w', out) = trade R X show_int k id s' w1 in
      Handed-Handled k id s w w' out (
        mine,
        ok,
        subst (λ st. Ran k id s' st w.inbox.acknowledged events w' out) at
            (subst (λ (i : Inbox R). Ran k id s' w1.state i.acknowledged events w' out) same
              (subst (λ l. Ran k id s' w1.state w1.inbox.acknowledged l w' out) risk
                (trade-Ran k id s' w1))),
      )
  verdict-Handled false k id s w w1 mine ok at same risk =
      (ap (λ i. i.acknowledged ++ id ∷ []) same, inr (mine, ok, risk, at))

  judge-Handled :
      (k : Worker N) (id : String) (s : Signal N) (w : World R X)
      → assigned k s ≡ true
      → let (w', out) = judge R X show_int k id (resolve_broker_symbol k s) w in
        Handled k id s w w' out
  unfolding judge
  judge-Handled k id s w mine =
      let s' = resolve_broker_symbol k s in
      let (st, now) = X.now w.state in
      let v = validate N k.risk_manager show_int now s' k.account in
      let w0 : World R X = record w { state = st } in
      let w1 = publish_risk R X show_int s' k.account v w0 in
      verdict-Handled v.approved k id s w w1 mine refl (publish_risk-state k s' v w0)
        (publish_risk-inbox k s' v w0) (publish_risk-published now k s' w0)

  -- What becomes of a signal. If its strategy is not assigned nothing is run and the state stays as
  -- it was; if the risk manager refuses it, with its broker symbol resolved, only the reading of the
  -- time changes the state. In both cases the message is acknowledged and no trade is published. If
  -- it is assigned and approved its order is run, once, in the state after that reading: the
  -- executor's result is returned with the message acknowledged, the trade published after the
  -- validation, and the state that the executor and the steps after it leave. An exception that
  -- comes out is the executor's, with the message not acknowledged, or that of a step after the
  -- trade.
  pub handle_decides :
      (k : Worker N) (id : String) (s : Signal N) (w : World R X)
      → let (w', out) = handle R X show_int k id s w in Handled k id s w w' out
  unfolding handle done acknowledge
  handle_decides k id s w = elim (Bool-cases (assigned k s)) [
    | inl e ↦ rw (e, handle) (judge-Handled k id s w e)
    | inr e ↦ rw (e, handle) (refl, inl (e, refl, refl))
  ]
