-- ===== src/Trading/Worker/Synthetic.antt =====
-- The entry that `simulate_signal` tries, its report, and what it calls.
use clartt_capital.Common.{
  Bool, true, false, not, ◌&&◌, Option, none, some, List, [], ◌∷◌, ◌++◌, String, if◌then◌else◌,
}
use clartt_capital.Floats.{Floats}
use clartt_capital.Breaker.{Outcome, returned, raised}
use clartt_capital.Trading.Models.{
  Signal, SignalDirection, SignalMode, Timeframe, BosType, TradingAccount, TradeExecutionResult,
}
use clartt_capital.Trading.Worker.Models.{Desk, Worker}
use clartt_capital.Trading.Worker.Cycle.{resolve_broker_symbol}
use Prim.Native.String.{compare}
use Prim.Native.Nat.{Ordering}

-- The broker's side of the executor, over the state of the desk.
pub record Plumbing {N : Floats} (X : Desk N) : Type 1 where
  pub Client : Type 0
  pub resolve_client : String → TradingAccount N → Option Client
  pub connect_with_retry : TradingAccount N → Client → X.State → X.State × Outcome (Unit {0})
  -- The prices of a tick under "bid", "ask" and "current_price", where they are there.
  pub get_symbol_info_tick :
      Client → String → X.State → X.State × Outcome (Option (List (Option N.F)))

pub record Levels (N : Floats) : Type 0 where
  pub entry : N.F
  pub stop_loss : N.F
  pub take_profit : N.F

pub record Report (N : Floats) : Type 0 where
  pub steps : List (String × Bool)
  pub would_trade : Bool
  pub placed : Bool
  pub signal : Option (Levels N)
  pub execution : Option (TradeExecutionResult N)

-- `sent` is the signals that the executor was given.
pub record Bench {N : Floats} (X : Desk N) : Type 0 where
  pub state : X.State
  pub sent : List (Signal N)

abbrev pub earlier : String → String → Bool
earlier a b = elim (compare a b) [ Ordering.lt ↦ true | _ ↦ false ]

-- `sorted(ids)[0]`, for a first id and the others.
unfoldable pub first_sorted : String → List String → String
first_sorted a [] = a
first_sorted a (b ∷ bs) = first_sorted (if earlier b a then b else a) bs

unfoldable pub strategy_id_of : List String → String
unfolding first_sorted
strategy_id_of [] = "00000000-0000-0000-0000-000000000000"
strategy_id_of (a ∷ ids) = first_sorted a ids

module _ (N : Floats) where
  -- A price counts unless it is missing or zero.
  abbrev pub is_price : N.F → Bool
  is_price x = not (N.le x (N.lit 0) && N.le (N.lit 0) x)

  unfoldable pub first_price : List (Option N.F) → Option N.F
  first_price [] = none
  first_price (none ∷ ps) = first_price ps
  first_price (some x ∷ ps) = if is_price x then some x else first_price ps

  abbrev pub price_of : Outcome (Option (List (Option N.F))) → Option N.F
  unfolding first_price
  price_of (raised e) = none
  price_of (returned none) = none
  price_of (returned (some ps)) = first_price ps

  abbrev pub larger : N.F → N.F → N.F
  larger a b = if N.lt a b then b else a

  unfoldable pub levels_at : SignalDirection → N.F → Levels N
  levels_at direction price =
      let dist =
        larger (N.mul price (N.div (N.lit 5) (N.lit 1000))) (N.div (N.lit 1) (N.lit 100)) in
      elim direction [
        | SignalDirection.buy ↦ record {
          entry = price;
          stop_loss = N.sub price dist;
          take_profit = N.add price (N.mul (N.lit 2) dist);
        }
        | SignalDirection.sell ↦ record {
          entry = price;
          stop_loss = N.add price dist;
          take_profit = N.sub price (N.mul (N.lit 2) dist);
        }
      ]

module _ {N : Floats} where
  unfoldable pub rec : String → Bool → Report N → Report N
  rec name ok r = record r { steps = r.steps ++ ((name, ok) ∷ []) }

  -- The report after the kill switch, the autopilot and the assignment of strategies.
  unfoldable pub first_gates : (active enabled : Bool) → Report N
  unfolding rec
  first_gates active enabled = rec "strategy_assignment" true (
      rec "autopilot" enabled (
        rec "kill_switch" (not active) (record {
          steps = [];
          would_trade = false;
          placed = false;
          signal = none;
          execution = none;
        })))

  unfoldable pub synthetic :
      Worker N → (id created_at instrument : String) → SignalDirection → Levels N → Signal N
  unfolding strategy_id_of resolve_broker_symbol
  synthetic k id created_at instrument direction l = resolve_broker_symbol k (record {
    id = id;
    instrument = instrument;
    direction = direction;
    entry_price = l.entry;
    stop_loss = l.stop_loss;
    take_profit = l.take_profit;
    position_size = N.lit 1;
    confidence_score = N.div (N.lit 99) (N.lit 100);
    timeframe = Timeframe.five_minutes;
    order_block_id = "manual-test";
    strategy_id = strategy_id_of k.assigned_strategy_ids;
    mode = SignalMode.live;
    metadata = record {
      bos_type = elim direction [
        | SignalDirection.buy ↦ BosType.bullish
        | SignalDirection.sell ↦ BosType.bearish
      ];
      liquidity_swept = false;
      session = "manual-test";
      spread_at_generation = N.lit 0;
      volatility_ratio = N.lit 1;
    };
    exit_rules = none;
    broker_symbol = none;
    created_at = created_at;
  })
