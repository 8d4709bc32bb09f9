-- ===== src/Trading/Orders/Tests.antt =====
-- Orders at brokers that fail, and the theorems at inputs that meet their hypotheses. The state of the
-- brokers is the number of submissions that still raise.
use clartt_capital.Common.{ℕ, zero, suc, ◌≡◌, refl, true, false, some, none, [], ◌∷◌}
use clartt_capital.Floats.Naturals.{naturals, unary}
use clartt_capital.Breaker.{CircuitBreaker, closed, Readings, Outcome, returned, raised}
use clartt_capital.Trading.Samples.{signal, account}
use clartt_capital.Trading.Orders.Broker.{
  OrderResult, Clients, World, Connection, connected, failed, sleep,
}
use clartt_capital.Trading.Orders.Execute.{Call, send_attempts, execute_broker_call}
use clartt_capital.Trading.Orders.Retries.{Submitted, order_submissions}
use clartt_capital.Trading.Orders.Books.{Booked, execute_broker_call_books}
use clartt_capital.Trading.Orders.Outage.{Order, execute_all, outage_never_opens}

abbrev filled_at : ℕ → OrderResult naturals
filled_at price = record {
  success = true;
  order_id = 7;
  fill_price = price;
  error_code = 0;
  error_message = "";
}

abbrev send : ℕ → ℕ × Outcome (OrderResult naturals)
send zero = (0, returned (filled_at 101))
send (suc n) = (n, raised "timeout")

abbrev broker : Connection → Clients naturals
broker connection = record {
  State = ℕ;
  Client = Unit {0};
  connect = λ c a s. (s, connection);
  takes_token = λ c. false;
  connect_with_token = λ c l t s. (s, connection);
  send_order = λ c symbol s st. send st;
  modify_position = λ c id sl tp st. (st, returned (filled_at 0));
  close_position_by_id = λ c id st. (st, returned (filled_at 101));
  symbol_info_tick = λ c symbol st. (st, returned none);
  router = none;
  legacy = some tt;
  info = λ i. record { category = none; preferred_provider = none };
  unresolved = λ i. "no client";
}

abbrev start : (c : Connection) → ℕ → World (broker c)
start c n = record { state = n; slept = []; published = [] }

-- Two submissions raise, the third is filled, after one and two seconds.
third :
    (send_attempts (broker connected) 3 0 "None" tt signal (start connected 2)).0.slept ≡ 1 ∷ 2 ∷ []
unfolding send_attempts sleep
third = refl

order_submissions_example :
    let (w', out) = send_attempts (broker connected) 3 0 "None" tt signal (start connected 2) in
    Submitted (broker connected) tt signal 3 2 w'.state out
order_submissions_example = order_submissions (broker connected) tt signal (start connected 2)

abbrev call : Call naturals
call = record { result_id = "t1"; now = "2026-01-05T10:00:00Z"; elapsed_ms = 3 }

execute_broker_call_books_example :
    let w = start connected 1 in
    let (w', out) =
      execute_broker_call (broker connected) true unary call signal (account 1000) w in
    Booked (broker connected) unary call signal (account 1000) w w' out
execute_broker_call_books_example =
    execute_broker_call_books (broker connected) unary call signal (account 1000)
      (start connected 1)

abbrev clock : Readings
clock = record { at_entry = 9; at_half_open = 9; at_success = 9; at_change = 9; at_open = 9 }

abbrev order : Order naturals
order = record { call = call; signal = signal; account = account 1000; clock = clock }

abbrev breaker : CircuitBreaker
breaker = record {
  name = "execution-to-metaapi";
  on_state_change = false;
  failure_threshold = 1;
  recovery_timeout_ms = 1000;
  probe_interval_ms = 1000;
  state = closed;
  failure_count = 0;
  last_state_change_time = 0;
  last_success_time = 0;
  opened_at = 0;
  probe_in_flight = false;
  notified = [];
}

-- No connection can be made, and a threshold of one failure is not reached.
outage_never_opens_example :
    (execute_all
      (broker (failed "down"))
      true
      unary
      (order ∷ order ∷ [])
      breaker
      (start (failed "down") 0)).0.0.state
    ≡ closed
outage_never_opens_example =
    outage_never_opens (broker (failed "down")) true unary (λ c symbol st h. h) (order ∷ order ∷ [])
      breaker (start (failed "down") 0) refl
