-- ===== src/Trading/Orders/Broker.antt =====
-- What `TradeExecutor` calls, its events, and the connection to a broker with its retries.
use clartt_capital.Common.{
  ℕ, zero, suc, ◌+◌, Bool, Option, none, some, List, [], ◌∷◌, ◌++◌, String, ◌<>◌, str_eq,
  if◌then◌else◌,
}
use clartt_capital.Floats.{Floats}
use clartt_capital.Breaker.{Outcome}
use clartt_capital.Trading.Brokers.{BrokerProvider, InstrumentInfo, resolve_client, provider_of}
use clartt_capital.Trading.Models.{Signal, TradingAccount, TradeExecutionResult}

pub record OrderResult (N : Floats) : Type 0 where
  pub success : Bool
  pub order_id : ℕ
  pub fill_price : N.F
  pub error_code : ℕ
  pub error_message : String

pub record Tick (N : Floats) : Type 0 where
  pub bid : Option N.F
  pub ask : Option N.F

-- What a connection attempt comes to: the client returns True or False, raises
-- BrokerConnectionError, or raises another exception.
pub data Connection : Type 0 where
  connected refused : Connection
  connection_error failed : String → Connection

pub record Clients (N : Floats) : Type 1 where
  pub State : Type 0
  pub Client : Type 0
  pub connect : Client → (metaapi_account_id : Option String) → State → State × Connection
  pub takes_token : Client → Bool
  pub connect_with_token : Client → (login token : String) → State → State × Connection
  pub send_order : Client → (symbol : String) → Signal N → State → State × Outcome (OrderResult N)
  pub modify_position : Client → ℕ → (sl tp : Option N.F) → State → State × Outcome (OrderResult N)
  pub close_position_by_id : Client → ℕ → State → State × Outcome (OrderResult N)
  pub symbol_info_tick : Client → (symbol : String) → State → State × Outcome (Option (Tick N))
  pub router : Option (List (BrokerProvider × Client))
  pub legacy : Option Client
  -- The text of the RuntimeError where no client is found.
  pub unresolved : (instrument : String) → String
  pub info : (instrument : String) → InstrumentInfo

pub data Event (N : Floats) : Type 0 where
  trade_requested : Signal N → TradingAccount N → Event N
  trade_executed :
      Signal N
      → TradingAccount N
      → TradeExecutionResult N
      → (spread : N.F) → Option (Tick N)
      → Event N
  trade_failed :
      Signal N
      → TradingAccount N
      → (failure_reason error_code : String) → (retry_count : ℕ) → (spread : N.F) → Option (Tick N)
      → (broker_connected : Bool) → Event N

-- The state of the brokers, the seconds that were slept and the events that were published, the
-- latest last.
pub record World {N : Floats} (X : Clients N) : Type 0 where
  pub state : X.State
  pub slept : List ℕ
  pub published : List (Event N)

abbrev pub max_retries : ℕ
max_retries = 3

-- `BACKOFF_SECONDS`, 1, 2 and 4, by the attempt.
abbrev pub backoff_seconds : ℕ → ℕ
backoff_seconds zero = 1
backoff_seconds (suc zero) = 2
backoff_seconds _ = 4

-- An optional text that is not empty.
abbrev pub truthy : Option String → Option String
truthy none = none
truthy (some t) = if str_eq t "" then none else some t

module _ {N : Floats} (X : Clients N) where
  unfoldable pub resolve : (instrument : String) → TradingAccount N → Option X.Client
  unfolding resolve_client provider_of
  resolve instrument a =
      resolve_client X.router X.legacy (provider_of a.broker_provider) (X.info instrument)

  unfoldable pub sleep : ℕ → World X → World X
  sleep seconds w = record w { slept = w.slept ++ (seconds ∷ []) }

  unfoldable pub publish : (publishing : Bool) → Event N → World X → World X
  publish publishing e w =
      if publishing then record w { published = w.published ++ (e ∷ []) } else w

  -- The token and the login of a Deriv account, where the client takes them.
  unfoldable pub deriv_auth : X.Client → TradingAccount N → Option (String × String)
  deriv_auth c a = elim (truthy a.deriv_api_token) [
    | none ↦ none
    | some token ↦ elim (truthy a.deriv_login_id) [
      | none ↦ none
      | some login ↦ if X.takes_token c then some (login, token) else none
    ]
  ]

  abbrev identity : Option (String × String) → Option String → String
  identity (some (login, _)) metaapi = login
  identity none (some metaapi) = metaapi
  identity none none = "None"

  unfoldable pub connect_via :
      Option (String × String) → X.Client → TradingAccount N → X.State → X.State × Connection
  connect_via none c a s = X.connect c a.metaapi_account_id s
  connect_via (some (login, token)) c a s = X.connect_with_token c login token s

  unfoldable pub connect_once : X.Client → TradingAccount N → World X → World X × Connection
  unfolding deriv_auth connect_via
  connect_once c a w =
      let (s, r) = connect_via (deriv_auth c a) c a w.state in (record w { state = s }, r)

  -- The attempts that are left, and the number of the next one. `some` is the text of the
  -- BrokerConnectionError that is raised.
  unfoldable pub connect_attempts :
      ℕ → ℕ → X.Client → TradingAccount N → World X → World X × Option String
  unfolding sleep
  connect_attempts zero attempt c a w = (w, none)
  connect_attempts (suc left) attempt c a w =
      let (w', r) = connect_once c a w in
      elim r [
        | connected ↦ (w', none)
        | refused ↦ (
          w',
          some (
              "Broker connect returned False for account="
              <> identity (deriv_auth c a) a.metaapi_account_id),
        )
        | connection_error e ↦ (w', some e)
        | failed e ↦ elim left [
          | zero ↦ (w', some ("Failed to connect to broker after 3 attempts: " <> e))
          | suc _ ↦ connect_attempts left (attempt + 1) c a (sleep (backoff_seconds attempt) w')
        ]
      ]

  unfoldable pub connect_with_retry :
      X.Client → TradingAccount N → World X → World X × Option String
  unfolding connect_attempts
  connect_with_retry = connect_attempts max_retries 0
