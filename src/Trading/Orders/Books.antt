-- ===== src/Trading/Orders/Books.antt =====
-- What `_execute_broker_call` returns and publishes, and what the circuit breaker makes of it.
-- (trade_executor.py)
use clartt_capital.Common.{
  ℕ, zero, suc, ◌+◌, ◌≡◌, ◌≢◌, refl, sym, ap, ◌∙◌, ◌⊎◌, inl, inr, true, false, Option, none, String,
  ◌<>◌, List, [], ◌∷◌, ◌++◌, All, Option-cases, Bool-cases, append_assoc, append-nil, arith,
}
use clartt_capital.Floats.{Floats}
use clartt_capital.Breaker.{Outcome, Outcome-cases, returned, raised}
use clartt_capital.Trading.Models.{
  Signal, TradingAccount, TradeExecutionResult, TradeExecutionStatus,
}
use clartt_capital.Trading.Orders.Broker.{
  Clients, World, Event, OrderResult, Tick, trade_requested, trade_executed, trade_failed, publish,
  sleep, connect_once, connect_attempts, connect_with_retry, backoff_seconds, resolve, max_retries,
}
use clartt_capital.Trading.Orders.Execute.{
  Call, send_attempts, conclude, submit, execute_broker_call, symbol_of,
}

module _ {N : Floats} (X : Clients N) where
  connect_once-published :
      (c : X.Client) (a : TradingAccount N) (w : World X)
      → (connect_once X c a w).0.published ≡ w.published
  unfolding connect_once
  connect_once-published c a w = refl

  connect-published :
      (n attempt : ℕ) (c : X.Client) (a : TradingAccount N) (w : World X)
      → (connect_attempts X n attempt c a w).0.published ≡ w.published
  unfolding connect_attempts
  connect-published zero attempt c a w = refl
  connect-published (suc zero) attempt c a w = ground (arith, connect_once-published c a w)
  connect-published (suc (suc n)) attempt c a w =
      let w' = (connect_once X c a w).0 in
      ground (
        arith,
        connect_once-published c a w,
        connect-published (suc n) (attempt + 1) c a (sleep X (backoff_seconds attempt) w'),
      )

  connect_with_retry-published :
      (c : X.Client) (a : TradingAccount N) (w : World X)
      → (connect_with_retry X c a w).0.published ≡ w.published
  unfolding connect_with_retry
  connect_with_retry-published = connect-published max_retries 0

  send-published :
      (n attempt : ℕ) (last : String) (c : X.Client) (s : Signal N) (w : World X)
      → (send_attempts X n attempt last c s w).0.published ≡ w.published
  unfolding send_attempts
  send-published zero attempt last c s w = refl
  send-published (suc zero) attempt last c s w = ground arith
  send-published (suc (suc n)) attempt last c s w =
      let r = X.send_order c (symbol_of s) s w.state in
      elim (Outcome-cases r.1) [
        | inl (o, e) ↦ rw (e, send_attempts) refl
        | inr (x, e) ↦
            rw (e, send_attempts)
              (send-published (suc n) (attempt + 1) x c s
                (sleep X (backoff_seconds attempt) (record w { state = r.0 })))
      ]

module _ {N : Floats} where
  abbrev pub NotExecuted : Event N → Type 0
  NotExecuted (trade_requested s a) = Unit
  NotExecuted (trade_executed s a r spread tick) = ⊥
  NotExecuted (trade_failed s a why code n spread tick up) = Unit

and_then {ℓ} :
    {A : Type ℓ} (xs ys : List A) (a b : A) → ys ≡ xs ++ a ∷ [] → ys ++ b ∷ [] ≡ xs ++ a ∷ b ∷ []
and_then xs ys a b h = ap (λ l. l ++ b ∷ []) h ∙ append_assoc xs (a ∷ []) (b ∷ [])

module _ {N : Floats} (X : Clients N) (show_int : ℕ → String) where
  module _ (call : Call N) (s : Signal N) (a : TradingAccount N) where
    -- A filled result carries the order id and the price of an answer in which the broker accepted
    -- the order, and is the one trade that is published as executed.
    abbrev pub Filled : World X → World X → TradeExecutionResult N → Type 0
    Filled w w' r =
        (c : X.Client) × (w0 : World X) × (o : OrderResult N) × (tick : Option (Tick N))
        × ((send_attempts X max_retries 0 "None" c s w0).1 ≡ returned o)
        × (o.success ≡ true)
        × (r.status ≡ TradeExecutionStatus.filled)
        × (r.order_id ≡ o.order_id)
        × (r.fill_price ≡ o.fill_price)
        × (w'.published
            ≡ w.published
              ++ trade_requested s a ∷ trade_executed s a r r.spread_at_execution tick ∷ [])

    -- Any other result has no order, and no trade is published as executed.
    abbrev pub NotFilled : World X → World X → TradeExecutionResult N → Type 0
    NotFilled w w' r =
        (r.status ≢ TradeExecutionStatus.filled)
        × (r.order_id ≡ 0)
        × ((es : List (Event N)) × (w'.published ≡ w.published ++ es) × All NotExecuted es)

    conclude-books :
        (c : X.Client) (w0 w1 w : World X) (tick : Option (Tick N)) (out : Outcome (OrderResult N))
        → (send_attempts X max_retries 0 "None" c s w0).1 ≡ out
        → w1.published ≡ w.published ++ trade_requested s a ∷ []
        → let (w', r) = conclude X true show_int call s a tick out w1 in
          Filled w w' r ⊎ NotFilled w w' r
    unfolding conclude
    conclude-books c w0 w1 w tick (raised e) is h =
        inr ((λ x. cc), refl, (_ ∷ _ ∷ [], and_then w.published w1.published _ _ h, (tt, (tt, tt))))
    conclude-books c w0 w1 w tick (returned o) is h = elim (Bool-cases o.success) [
      | inl accepted ↦ rw accepted (
          inl (
            c,
            w0,
            o,
            tick,
            is,
            accepted,
            refl,
            refl,
            refl,
            and_then w.published w1.published _ _ h,
          ))
      | inr rejected ↦ rw rejected (
          inr (
            (λ x. cc),
            refl,
            (_ ∷ _ ∷ [], and_then w.published w1.published _ _ h, (tt, (tt, tt))),
          ))
    ]

    -- What a call of `submit` or `_execute_broker_call` that returns a result amounts to.
    abbrev pub Booked : World X → World X → Outcome (TradeExecutionResult N) → Type 0
    Booked w w' (returned r) = Filled w w' r ⊎ NotFilled w w' r
    Booked w w' (raised e) = Unit {0}

    submit-Booked :
        (c : X.Client) (w0 w : World X)
        → w0.published ≡ w.published
        → let (w', out) = submit X true show_int call s a c w0 in Booked w w' out
    unfolding submit publish
    submit-Booked c w0 w h =
        let (st, r) = X.symbol_info_tick c (symbol_of s) w0.state in
        let w1 : World X = record w0 { state = st } in
        let asked = publish X true (trade_requested s a) w1 in
        let (w2, o) = send_attempts X max_retries 0 "None" c s asked in
        elim (Outcome-cases r) [
          | inl (tick, e) ↦
              rw (e, submit)
                (conclude-books c asked w2 w tick o refl (
                  send-published X max_retries 0 "None" c s asked
                  ∙ ap (λ l. l ++ trade_requested s a ∷ []) h))
          | inr (x, e) ↦ rw (e, submit) tt
        ]

    -- What a call of the broker returns and what it publishes agree, when there is an event
    -- publisher. A result is filled only with the order id and the price of an answer in which the
    -- broker accepted the order, and then a request and that execution are published, and nothing
    -- else; any other result has no order, and publishes no execution.
    pub execute_broker_call_books :
        (w : World X)
        → let (w', out) = execute_broker_call X true show_int call s a w in Booked w w' out
    unfolding execute_broker_call publish
    execute_broker_call_books w = elim (Option-cases (resolve X s.instrument a)) [
      | inl e ↦
          rw (e, execute_broker_call)
            (inr ((λ x. cc), refl, ([], sym (append-nil w.published), tt)))
      | inr (c, e) ↦
          let (w1, failure) = connect_with_retry X c a w in
          let kept = connect_with_retry-published X c a w in
          rw (e, execute_broker_call)
            (elim (Option-cases failure) [
              | inl up ↦ rw (up, execute_broker_call) (submit-Booked c w1 w kept)
              | inr (why, down) ↦
                  let event : Event N =
                    trade_failed s a ("Connection failed: " <> why) "CONNECTION_FAILED" max_retries
                      (N.lit 0) none false in
                  rw (down, execute_broker_call)
                    (inr ((λ x. cc), refl, (event ∷ [], ap (λ l. l ++ event ∷ []) kept, (tt, tt))))
            ])
    ]
