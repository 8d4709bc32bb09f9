-- ===== src/Trading/Brokers.antt =====
-- packages/execution-engine/src/executor/clients/base.py, the routing of instruments to brokers, and
-- the client that `TradeExecutor._resolve_client` of executor/trade_executor.py picks. The category
-- that `detect_category` or the registry finds is an argument.
use clartt_capital.Common.{
  Bool, true, false, Option, none, some, String, str_eq, List, [], ◌∷◌, if◌then◌else◌,
}

pub data InstrumentCategory : Type 0 where
  synthetic forex commodity index stock crypto future : InstrumentCategory

pub data BrokerProvider : Type 0 where
  deriv metaapi alpaca binance ibkr stub : BrokerProvider

-- `CATEGORY_DEFAULT_PROVIDER`.
unfoldable pub default_provider : InstrumentCategory → BrokerProvider
default_provider synthetic = deriv
default_provider forex = metaapi
default_provider commodity = metaapi
default_provider index = metaapi
default_provider stock = alpaca
default_provider crypto = binance
default_provider future = ibkr

abbrev pub provider_eq : BrokerProvider → BrokerProvider → Bool
provider_eq deriv deriv = true
provider_eq metaapi metaapi = true
provider_eq alpaca alpaca = true
provider_eq binance binance = true
provider_eq ibkr ibkr = true
provider_eq stub stub = true
provider_eq _ _ = false

-- `BrokerProvider(raw)`: `none` is the ValueError, as is no text.
unfoldable pub provider_of : Option String → Option BrokerProvider
provider_of none = none
provider_of (some raw) =
    if str_eq raw "deriv"
    then some deriv
    else if str_eq raw "metaapi"
    then some metaapi
    else if str_eq raw "alpaca"
    then some alpaca
    else if str_eq raw "binance"
    then some binance
    else if str_eq raw "ibkr"
    then some ibkr
    else if str_eq raw "stub"
    then some stub
    else none

-- What the registry knows of an instrument.
pub record InstrumentInfo : Type 0 where
  pub category : Option InstrumentCategory
  pub preferred_provider : Option BrokerProvider

unfoldable pub resolve_provider :
    Option InstrumentCategory → (account instrument : Option BrokerProvider) → Option BrokerProvider
unfolding default_provider
resolve_provider category (some p) instrument = some p
resolve_provider category none (some p) = some p
resolve_provider (some c) none none = some (default_provider c)
resolve_provider none none none = none

module _ {ℓ} {C : Type ℓ} where
  -- The dictionary of registered clients.
  unfoldable pub get : BrokerProvider → List (BrokerProvider × C) → Option C
  get p [] = none
  get p ((q, c) ∷ cs) = if provider_eq q p then some c else get p cs

  unfoldable pub register :
      BrokerProvider → C → List (BrokerProvider × C) → List (BrokerProvider × C)
  register p c [] = (p, c) ∷ []
  register p c ((q, d) ∷ cs) = if provider_eq q p then (q, c) ∷ cs else (q, d) ∷ register p c cs

  unfoldable pub get_client_for :
      Option InstrumentCategory
      → (account instrument : Option BrokerProvider) → List (BrokerProvider × C)
      → Option C
  unfolding resolve_provider get
  get_client_for category account instrument clients =
      elim (resolve_provider category account instrument) [ none ↦ none | some p ↦ get p clients ]

  -- `none` is the RuntimeError. Without a router there is only the single client of the executor.
  unfoldable pub resolve_client :
      (router : Option (List (BrokerProvider × C)))
      → (legacy : Option C) → (account : Option BrokerProvider) → InstrumentInfo
      → Option C
  unfolding get_client_for
  resolve_client none legacy account info = legacy
  resolve_client (some clients) legacy account info =
      elim (get_client_for info.category account info.preferred_provider clients) [
        | none ↦ legacy
        | some c ↦ some c
      ]
