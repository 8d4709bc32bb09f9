-- ===== src/Trading/Orders/Execute.antt =====
-- `execute` and `_execute_broker_call`: from a signal to the broker's answer, and the circuit breaker
-- around it.
use clartt_capital.Common.{
  ℕ, zero, suc, ◌+◌, Bool, true, false, Option, none, some, String, ◌<>◌, if◌then◌else◌,
}
use clartt_capital.Floats.{Floats}
use clartt_capital.Breaker.{CircuitBreaker, Readings, Outcome, returned, raised}
use clartt_capital.Breaker.Concurrent.{Ticket, closed_call, probe_call, turned_away, admit, settle}
use clartt_capital.Trading.Models.{
  Signal, TradingAccount, TradeExecutionResult, TradeExecutionStatus,
}
use clartt_capital.Trading.Orders.Broker.{
  OrderResult, Tick, Clients, trade_requested, trade_executed, trade_failed, World, max_retries,
  backoff_seconds, resolve, truthy, sleep, publish, connect_with_retry,
}

-- What `execute` reads before it calls the broker, and the milliseconds when it returns.
pub record Call (N : Floats) : Type 0 where
  pub result_id : String
  pub now : String
  pub elapsed_ms : N.F

module _ {N : Floats} where
  -- A result without an order.
  unfoldable pub no_order :
      Call N
      → Signal N
      → TradingAccount N
      → TradeExecutionStatus
      → (reason : String) → (spread : N.F) → TradeExecutionResult N
  no_order call s a status reason spread = record {
    id = call.result_id;
    signal_id = s.id;
    account_id = a.id;
    order_id = 0;
    fill_price = N.lit 0;
    execution_latency_ms = call.elapsed_ms;
    status = status;
    rejection_reason = some reason;
    slippage = N.lit 0;
    spread_at_execution = spread;
    created_at = call.now;
  }

  unfoldable pub filled_order :
      Call N → Signal N → TradingAccount N → OrderResult N → (spread : N.F) → TradeExecutionResult N
  filled_order call s a r spread = record {
    id = call.result_id;
    signal_id = s.id;
    account_id = a.id;
    order_id = r.order_id;
    fill_price = r.fill_price;
    execution_latency_ms = call.elapsed_ms;
    status = TradeExecutionStatus.filled;
    rejection_reason = none;
    slippage = N.abs (N.sub r.fill_price s.entry_price);
    spread_at_execution = spread;
    created_at = call.now;
  }

  unfoldable pub spread_of : Option (Tick N) → N.F
  spread_of none = N.lit 0
  spread_of (some t) = elim t.ask [
    | none ↦ N.lit 0
    | some ask ↦ elim t.bid [ none ↦ N.lit 0 | some bid ↦ N.sub ask bid ]
  ]

  abbrev pub symbol_of : Signal N → String
  symbol_of s = elim (truthy s.broker_symbol) [ none ↦ s.instrument | some t ↦ t ]

module _ {N : Floats} (X : Clients N) where
  -- The attempts that are left, and the number of the next one: the broker's answer, or the text of
  -- the last exception.
  unfoldable pub send_attempts :
      ℕ → ℕ → (last : String) → X.Client → Signal N → World X → World X × Outcome (OrderResult N)
  unfolding sleep
  send_attempts zero attempt last c s w = (w, raised last)
  send_attempts (suc left) attempt last c s w =
      let (st, r) = X.send_order c (symbol_of s) s w.state in
      let w' : World X = record w { state = st } in
      elim r [
        | returned o ↦ (w', returned o)
        | raised e ↦ elim left [
          | zero ↦ (w', raised e)
          | suc _ ↦ send_attempts left (attempt + 1) e c s (sleep X (backoff_seconds attempt) w')
        ]
      ]

module _ {N : Floats} (X : Clients N) (publishing : Bool) (show_int : ℕ → String) where
  module _ (call : Call N) (s : Signal N) (a : TradingAccount N) where
    -- What the broker's answer comes to, or that there was none.
    unfoldable pub conclude :
        Option (Tick N) → Outcome (OrderResult N) → World X → World X × TradeExecutionResult N
    unfolding publish no_order filled_order spread_of
    conclude tick (raised e) w =
        let why = "Order submission failed after 3 attempts: " <> e in
        let spread = spread_of tick in
        (
          publish X publishing
              (trade_failed s a why "ORDER_SUBMISSION_FAILED" max_retries spread tick true) w,
          no_order call s a TradeExecutionStatus.error why spread,
        )
    conclude tick (returned o) w =
        let why = "Broker error " <> (show_int o.error_code <> (": " <> o.error_message)) in
        let spread = spread_of tick in
        let done = filled_order call s a o spread in
        if o.success
        then (publish X publishing (trade_executed s a done spread tick) w, done)
        else (
          publish X publishing (trade_failed s a why (show_int o.error_code) 0 spread tick true) w,
          no_order call s a TradeExecutionStatus.rejected why spread,
        )

    -- Once connected. A tick that cannot be fetched raises out of the whole call.
    unfoldable pub submit : X.Client → World X → World X × Outcome (TradeExecutionResult N)
    submit c w =
        let (st, r) = X.symbol_info_tick c (symbol_of s) w.state in
        let w1 : World X = record w { state = st } in
        elim r [
          | raised e ↦ (w1, raised e)
          | returned tick ↦
              let (w2, o) =
                send_attempts X max_retries 0 "None" c s
                  (publish X publishing (trade_requested s a) w1) in
              let (w3, result) = conclude tick o w2 in (w3, returned result)
        ]

    unfoldable pub execute_broker_call : World X → World X × Outcome (TradeExecutionResult N)
    unfolding publish no_order
    execute_broker_call w = elim (resolve X s.instrument a) [
      | none ↦ (
        w,
        returned (
            no_order call s a TradeExecutionStatus.error
              ("No broker: " <> X.unresolved s.instrument) (N.lit 0)),
      )
      | some c ↦
          let (w', failure) = connect_with_retry X c a w in
          elim failure [
            | none ↦ submit c w'
            | some e ↦
                let why = "Connection failed: " <> e in
                (
                  publish X publishing
                      (trade_failed s a why "CONNECTION_FAILED" max_retries (N.lit 0) none false)
                      w',
                  returned (no_order call s a TradeExecutionStatus.error why (N.lit 0)),
                )
          ]
    ]

    -- `_fallback`: its event, and its result.
    unfoldable pub turn_away : World X → World X
    unfolding publish
    turn_away w =
        publish X publishing
          (trade_failed s a "BROKER_UNAVAILABLE" "CIRCUIT_BREAKER_OPEN" 0 (N.lit 0) none false) w

    unfoldable pub unavailable : TradeExecutionResult N
    unfolding no_order
    unavailable = no_order call s a TradeExecutionStatus.rejected "BROKER_UNAVAILABLE" (N.lit 0)

    -- A probe that raises ends as the fallback does; a call of a closed breaker hands the exception on.
    abbrev falls_back : Ticket → Outcome (TradeExecutionResult N) → Bool
    falls_back turned_away out = true
    falls_back closed_call out = false
    falls_back probe_call (raised e) = true
    falls_back probe_call (returned r) = false

    unfoldable pub attempt_call : Ticket → World X → World X × Outcome (TradeExecutionResult N)
    unfolding unavailable
    attempt_call turned_away w = (w, returned unavailable)
    attempt_call closed_call w = execute_broker_call w
    attempt_call probe_call w = execute_broker_call w

    -- The breaker admits the call or turns it away, and is told of the outcome.
    unfoldable pub execute :
        Readings
        → CircuitBreaker
        → World X
        → (CircuitBreaker × World X) × Outcome (TradeExecutionResult N)
    execute r b w =
        let (b1, t) = admit r b in
        let (w1, out) = attempt_call t w in
        let (b2, answer) = settle t r out (returned unavailable) b1 in
        ((b2, (if falls_back t out then turn_away w1 else w1)), answer)
