-- ===== src/Trading/Orders/Change.antt =====
-- `modify_order` and `close_position`: changing and closing what a broker has open.
use clartt_capital.Common.{ℕ, Bool, false, Option, none, some, String, ◌<>◌, if◌then◌else◌}
use clartt_capital.Floats.{Floats}
use clartt_capital.Breaker.{returned, raised}
use clartt_capital.Trading.Models.{TradingAccount, TradeExecutionResult, TradeExecutionStatus}
use clartt_capital.Trading.Orders.Broker.{OrderResult, Clients, World, resolve, connect_with_retry}
use clartt_capital.Trading.Orders.Execute.{Call}

module _ {N : Floats} (X : Clients N) where
  -- By the instrument, if it is given, or the single client, or the router without an instrument.
  unfoldable pub client_for : Option String → TradingAccount N → Option X.Client
  unfolding resolve
  client_for (some instrument) a = resolve X instrument a
  client_for none a = elim X.legacy [ some c ↦ some c | none ↦ resolve X "" a ]

  unfoldable pub modify_connected : X.Client → ℕ → (sl tp : Option N.F) → World X → World X × Bool
  modify_connected c id sl tp w =
      let (s, r) = X.modify_position c id sl tp w.state in
      (record w { state = s }, elim r [ raised e ↦ false | returned o ↦ o.success ])

  unfoldable pub modify_order :
      ℕ → TradingAccount N → (sl tp : Option N.F) → Option String → World X → World X × Bool
  unfolding client_for modify_connected
  modify_order id a sl tp instrument w = elim (client_for instrument a) [
    | none ↦ (w, false)
    | some c ↦
        let (w', failure) = connect_with_retry X c a w in
        elim failure [ some e ↦ (w', false) | none ↦ modify_connected c id sl tp w' ]
  ]

  module _ (show_int : ℕ → String) (call : Call N) (id : ℕ) (a : TradingAccount N) where
    unfoldable pub closing_result :
        TradeExecutionStatus → (fill_price : N.F) → Option String → TradeExecutionResult N
    closing_result status fill_price reason = record {
      id = call.result_id;
      signal_id = "";
      account_id = a.id;
      order_id = id;
      fill_price = fill_price;
      execution_latency_ms = call.elapsed_ms;
      status = status;
      rejection_reason = reason;
      slippage = N.lit 0;
      spread_at_execution = N.lit 0;
      created_at = call.now;
    }

    unfoldable pub answered : OrderResult N → TradeExecutionResult N
    unfolding closing_result
    answered o =
        let why = "Broker error " <> (show_int o.error_code <> (": " <> o.error_message)) in
        if o.success
        then closing_result TradeExecutionStatus.filled o.fill_price none
        else closing_result TradeExecutionStatus.rejected (N.lit 0) (some why)

    unfoldable pub close_connected : X.Client → World X → World X × TradeExecutionResult N
    unfolding closing_result answered
    close_connected c w =
        let (s, r) = X.close_position_by_id c id w.state in
        (
          record w { state = s },
          elim r [
            | raised e ↦
                closing_result TradeExecutionStatus.error (N.lit 0) (some ("Close failed: " <> e))
            | returned o ↦ answered o
          ],
        )

    unfoldable pub close_position : Option String → World X → World X × TradeExecutionResult N
    unfolding closing_result client_for close_connected
    close_position instrument w = elim (client_for instrument a) [
      | none ↦ (
        w,
        closing_result TradeExecutionStatus.error (N.lit 0)
            (some ("No broker: " <> X.unresolved (elim instrument [ none ↦ "" | some i ↦ i ]))),
      )
      | some c ↦
          let (w', failure) = connect_with_retry X c a w in
          elim failure [
            | some e ↦ (
              w',
              closing_result TradeExecutionStatus.error (N.lit 0)
                  (some ("Connection failed: " <> e)),
            )
            | none ↦ close_connected c w'
          ]
    ]
