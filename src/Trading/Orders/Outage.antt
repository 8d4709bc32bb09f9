-- ===== src/Trading/Orders/Outage.antt =====
-- The circuit breaker during an outage of the brokers. (trade_executor.py, `execute`;
-- circuit_breaker.py)
use clartt_capital.Common.{
  subst, sym, ℕ, ◌≡◌, inl, inr, Bool, String, List, [], ◌∷◌, Option-cases, arith,
}
use clartt_capital.Floats.{Floats}
use clartt_capital.Breaker.{
  CircuitBreaker, closed, Readings, Outcome, Outcome-cases, returned, raised,
}
use clartt_capital.Breaker.Concurrent.{admit, settle, closed_call}
use clartt_capital.Trading.Models.{Signal, TradingAccount, TradeExecutionResult}
use clartt_capital.Trading.Orders.Broker.{Clients, World, resolve, connect_with_retry}
use clartt_capital.Trading.Orders.Execute.{
  Call, submit, execute_broker_call, attempt_call, execute, symbol_of,
}
use clartt_capital.Trading.Orders.Retries.{Raises}

-- Fetching a tick never raises: a client without a connection answers that it has none.
abbrev pub TicksReturn : {N : Floats} → Clients N → Type 0
TicksReturn X =
    (c : X.Client) (symbol : String) (st : X.State) → ¬ Raises (X.symbol_info_tick c symbol st).1

-- One call of `execute`.
pub record Order (N : Floats) : Type 0 where
  pub call : Call N
  pub signal : Signal N
  pub account : TradingAccount N
  pub clock : Readings

admit-closed : (r : Readings) (b : CircuitBreaker) → b.state ≡ closed → admit r b ≡ (b, closed_call)
unfolding admit
admit-closed r b h = ground arith

settle-closed {ℓ} :
    {A : Type ℓ} (r : Readings) (out fallback : Outcome A) (b : CircuitBreaker)
    → ¬ Raises out
    → b.state ≡ closed
    → (settle closed_call r out fallback b).0.state ≡ closed
unfolding settle
settle-closed r (returned a) fallback b quiet h = h
settle-closed r (raised e) fallback b quiet h = absurd (quiet tt)

module _ {N : Floats} (X : Clients N) (publishing : Bool) (show_int : ℕ → String) where
  -- Calls one after another, with the result of each.
  unfoldable pub execute_all :
      List (Order N)
      → CircuitBreaker
      → World X
      → (CircuitBreaker × World X) × List (Outcome (TradeExecutionResult N))
  execute_all [] b w = ((b, w), [])
  execute_all (o ∷ os) b w =
      let ((b', w'), out) = execute X publishing show_int o.call o.signal o.account o.clock b w in
      let (end, outs) = execute_all os b' w' in (end, out ∷ outs)

  module _ (quiet : TicksReturn X) where
    submit-returns :
        (call : Call N) (s : Signal N) (a : TradingAccount N) (c : X.Client) (w : World X)
        → ¬ Raises (submit X publishing show_int call s a c w).1
    unfolding submit
    submit-returns call s a c w =
        elim (Outcome-cases (X.symbol_info_tick c (symbol_of s) w.state).1) [
          | inl (tick, e) ↦ rw (e, submit) (λ h. h)
          | inr (x, e) ↦ absurd (quiet c (symbol_of s) w.state (subst Raises (sym e) tt))
        ]

    call-returns :
        (call : Call N) (s : Signal N) (a : TradingAccount N) (w : World X)
        → ¬ Raises (execute_broker_call X publishing show_int call s a w).1
    unfolding execute_broker_call
    call-returns call s a w = elim (Option-cases (resolve X s.instrument a)) [
      | inl e ↦ rw (e, execute_broker_call) (λ h. h)
      | inr (c, e) ↦
          rw (e, execute_broker_call)
            (elim (Option-cases (connect_with_retry X c a w).1) [
              | inl up ↦ rw (up, execute_broker_call) (submit-returns call s a c _)
              | inr (why, down) ↦ rw (down, execute_broker_call) (λ h. h)
            ])
    ]

    execute-closed :
        (o : Order N) (b : CircuitBreaker) (w : World X)
        → b.state ≡ closed
        → (execute X publishing show_int o.call o.signal o.account o.clock b w).0.0.state ≡ closed
    unfolding execute attempt_call
    execute-closed o b w h =
        rw (admit-closed o.clock b h, execute)
          (settle-closed o.clock _ _ b (call-returns o.call o.signal o.account w) h)

    -- A closed breaker is not opened by an outage of the brokers: after any calls of `execute`,
    -- whether or not the connections and the orders in them failed, it is closed, provided that
    -- fetching a tick never raises. A failed connection and a failed order end in a result, which the
    -- breaker counts as a success.
    pub outage_never_opens :
        (os : List (Order N)) (b : CircuitBreaker) (w : World X)
        → b.state ≡ closed
        → (execute_all os b w).0.0.state ≡ closed
    unfolding execute_all
    outage_never_opens [] b w h = h
    outage_never_opens (o ∷ os) b w h = outage_never_opens os _ _ (execute-closed o b w h)
