-- ===== src/Trading/Worker/Cycle.antt =====
-- The gates of a cycle, the draining of stale signals, and what becomes of a signal.
use clartt_capital.Common.{
  ltb, ℕ, zero, suc, ◌+◌, Bool, true, false, not, ◌&&◌, Option, none, some, List, [], ◌∷◌, ◌++◌,
  String, str_eq, if◌then◌else◌,
}
use clartt_capital.Floats.{Floats}
use clartt_capital.Breaker.{Outcome, returned, raised}
use clartt_capital.Trading.Models.{
  Signal, TradingAccount, TradeExecutionResult, TradeExecutionStatus, RiskValidationResult,
}
use clartt_capital.Trading.Risk.{validate}
use clartt_capital.Trading.Consumer.{Stream, Inbox, Call, ends, never, acknowledge, consume}
use clartt_capital.Trading.Worker.Models.{Desk, Event, risk_evaluated, trade_entry, Worker, World}

unfoldable pub member : String → List String → Bool
member k [] = false
member k (j ∷ js) = if str_eq j k then true else member k js

unfoldable pub symbol_for : String → List (String × String) → Option String
symbol_for k [] = none
symbol_for k ((j, v) ∷ m) = if str_eq j k then some v else symbol_for k m

abbrev pub is_empty : List String → Bool
is_empty [] = true
is_empty (_ ∷ _) = false

abbrev pub is_some_text : Option String → Bool
is_some_text none = false
is_some_text (some t) = not (str_eq t "")

abbrev pub is_filled : TradeExecutionStatus → Bool
is_filled TradeExecutionStatus.filled = true
is_filled _ = false

module _ {N : Floats} where
  -- No assignment accepts every strategy.
  unfoldable pub assigned : Worker N → Signal N → Bool
  unfolding member
  assigned k s =
      if is_empty k.assigned_strategy_ids
      then true
      else member s.strategy_id k.assigned_strategy_ids

  unfoldable pub resolve_broker_symbol : Worker N → Signal N → Signal N
  unfolding symbol_for
  resolve_broker_symbol k s =
      if is_some_text s.broker_symbol
      then s
      else elim (symbol_for s.instrument k.broker_symbol_map) [
        | none ↦ s
        | some t ↦
            if not (str_eq t "") && not (str_eq t s.instrument)
            then record s { broker_symbol = some t }
            else s
      ]

module _ {N : Floats} (R : Stream N) where
  -- The body of the loop after a call of `consume`, with the loop that follows.
  unfoldable pub drained_by :
      (ℕ → Inbox R → Inbox R × Call (Outcome ℕ))
      → ℕ
      → Inbox R × Call (Outcome (Option (String × Signal N)))
      → Inbox R × Call (Outcome ℕ)
  drained_by rest n (w, never) = (w, never)
  drained_by rest n (w, ends (raised e)) = (w, ends (raised e))
  drained_by rest n (w, ends (returned none)) = (w, ends (returned n))
  drained_by rest n (w, ends (returned (some (id, s)))) = rest (n + 1) (acknowledge R id w)

  -- `_drain_pending_signals`, on fuel: the number of signals drained, or the exception that ends it,
  -- if it ends.
  unfoldable pub drain : ℕ → (drained : ℕ) → Inbox R → Inbox R × Call (Outcome ℕ)
  unfolding drained_by
  drain zero n w = (w, ends (raised "out of fuel"))
  drain (suc fuel) n w = drained_by (drain fuel) n (consume R 0 w)

module _ {N : Floats} (R : Stream N) (X : Desk N) (show_int : ℕ → String) where
  unfoldable pub publish : Event N → World R X → World R X
  publish e w = record w { published = w.published ++ (e ∷ []) }

  unfoldable pub publish_risk :
      Signal N → TradingAccount N → RiskValidationResult → World R X → World R X
  unfolding publish
  publish_risk s a r w = if X.publishes_events then publish (risk_evaluated s a r) w else w

  unfoldable pub done : String → World R X → World R X
  unfolding acknowledge
  done id w = record w { inbox = acknowledge R id w.inbox }

  -- Steps 8b and 9: a filled order is written to the database and handed to the monitor.
  unfoldable pub follow :
      Worker N → Signal N → TradeExecutionResult N → X.State → X.State × Outcome (Unit {0})
  follow k s r st =
      let kept = if X.has_persister then X.record_entry s k.account r st else st in
      if is_filled r.status
      then if X.has_monitor
        then X.track_position r.order_id s k.account r.fill_price kept
        else (kept, returned tt)
      else (st, returned tt)

  unfoldable pub follow_up :
      Worker N
      → Signal N
      → TradeExecutionResult N
      → World R X
      → World R X × Outcome (Option (TradeExecutionResult N))
  follow_up k s r w =
      let (st, out) = follow k s r w.state in
      (record w { state = st }, elim out [ raised e ↦ raised e | returned _ ↦ returned (some r) ])

  -- Steps 6 to 10.
  unfoldable pub trade :
      Worker N
      → String
      → Signal N
      → World R X
      → World R X × Outcome (Option (TradeExecutionResult N))
  unfolding publish done follow_up
  trade k id s w =
      let (st, out) = X.execute s k.account w.state in
      let w' : World R X = record w { state = st } in
      elim out [
        | raised e ↦ (w', raised e)
        | returned r ↦ follow_up k s r (publish (trade_entry s k.account r) (done id w'))
      ]

  -- Step 5, on a signal whose broker symbol is resolved.
  unfoldable pub judge :
      Worker N
      → String
      → Signal N
      → World R X
      → World R X × Outcome (Option (TradeExecutionResult N))
  judge k id s w =
      let (st, now) = X.now w.state in
      let verdict = validate N k.risk_manager show_int now s k.account in
      let w' = publish_risk s k.account verdict (record w { state = st }) in
      if verdict.approved then trade k id s w' else (done id w', returned none)

  -- Steps 4 to 10.
  unfoldable pub handle :
      Worker N
      → String
      → Signal N
      → World R X
      → World R X × Outcome (Option (TradeExecutionResult N))
  handle k id s w =
      if assigned k s then judge k id (resolve_broker_symbol k s) w else (done id w, returned none)

  -- Step 2: whether the autopilot lets the cycle go on.
  unfoldable pub autopilot_gate : Worker N → X.State → (Worker N × X.State) × Bool
  autopilot_gate k st =
      let (st', enabled) = X.autopilot_enabled k.account.id st in
      let open_position = ltb 0 k.account.open_positions in
      if X.has_autopilot
      then if enabled
        then ((record k { deactivated_while_open = false }, st'), true)
        else ((record k { deactivated_while_open = open_position }, st'), false)
      else ((k, st), true)

  -- Steps 3 to 10, for a worker that the gates have let through.
  unfoldable pub next_signal :
      Worker N → World R X → World R X × Call (Outcome (Option (TradeExecutionResult N)))
  next_signal k w =
      let (inbox, r) = consume R k.poll_timeout_ms w.inbox in
      let w' : World R X = record w { inbox = inbox } in
      elim r [
        | never ↦ (w', never)
        | ends (raised e) ↦ (w', ends (raised e))
        | ends (returned none) ↦ (w', ends (returned none))
        | ends (returned (some (id, s))) ↦ let (w'', out) = handle k id s w' in (w'', ends out)
      ]

  -- Steps 2 to 10.
  unfoldable pub proceed :
      Worker N
      → World R X
      → (Worker N × World R X) × Call (Outcome (Option (TradeExecutionResult N)))
  proceed k w =
      let ((k', st), go) = autopilot_gate k w.state in
      let w' : World R X = record w { state = st } in
      let (w'', out) = next_signal k' w' in
      if go then ((k', w''), out) else ((k', w'), ends (returned none))

  -- `_process_one_cycle`, with the fuel of the drain after a kill switch.
  unfoldable pub process_one_cycle :
      (fuel : ℕ)
      → Worker N
      → World R X
      → (Worker N × World R X) × Call (Outcome (Option (TradeExecutionResult N)))
  process_one_cycle fuel k w =
      let (st, active) = X.kill_switch_active w.state in
      let w' : World R X = record w { state = st } in
      let lifted = record k { was_kill_switched = false } in
      let (inbox, drained) = drain R fuel 0 w'.inbox in
      let w'' : World R X = record w' { inbox = inbox } in
      if active
      then ((record k { was_kill_switched = true }, w'), ends (returned none))
      else if k.was_kill_switched
      then elim drained [
        | never ↦ ((lifted, w''), never)
        | ends (raised e) ↦ ((lifted, w''), ends (raised e))
        | ends (returned n) ↦ proceed lifted w''
      ]
      else proceed k w'
