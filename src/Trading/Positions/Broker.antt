-- ===== src/Trading/Positions/Broker.antt =====
-- What `PositionMonitor` calls (the executor, the broker, the database, the clock), as the interface
-- Services over an unknown state, and its broker actions. `none` is a call that raises. A failure to
-- publish is caught in the source, so `published` is what was handed to Redis.
use clartt_capital.Common.{
  ℕ, Bool, true, false, not, ◌&&◌, Option, some, none, List, [], ◌∷◌, ◌++◌, String, str_eq,
  if◌then◌else◌,
}
use clartt_capital.Floats.{Floats}
use clartt_capital.Trading.Models.{TradingAccount, TradeExecutionResult, TradeExecutionStatus}
use clartt_capital.Trading.ExitRules.{InstrumentSpecs}
use clartt_capital.Trading.Positions.Models.{
  TrackedPosition, Tick, ClosedContract, profit_distance, profit_at,
}

-- `lower` is Python's, `client_of` the router's client for the text of a provider. The flags say
-- whether a router and a persister are configured, and what a client has.
pub record Services (N : Floats) : Type 1 where
  pub State : Type 0
  pub Client : Type 0
  pub now : State → State × ℕ
  pub symbol_info_tick : String → State → State × Option (Option (Tick N))
  pub fetch_specs : State → State × Option (List (InstrumentSpecs N))
  pub modify_order : ℕ → TradingAccount N → (stop_loss : N.F) → State → State × Option Bool
  pub close_position : ℕ → TradingAccount N → State → State × Option (TradeExecutionResult N)
  pub lower : String → String
  pub legacy : Client
  pub has_router : Bool
  pub client_of : String → Option Client
  pub connects_with_token : Client → Bool
  pub connect_with_token : Client → (login token : String) → State → State × Bool
  pub get_positions : Client → State → State × Option (List ℕ)
  pub fetches_contracts : Client → Bool
  pub fetch_closed_contract : Client → ℕ → State → State × Option (Option (ClosedContract N))
  pub has_persister : Bool
  pub record_exit :
      (broker_order_id : ℕ)
      → (exit_price profit_loss : N.F) → (closed_at : ℕ) → State
      → State × Option Bool

pub data Event (N : Floats) : Type 0 where
  trade_exit :
      TrackedPosition N → TradeExecutionResult N → (reason : String) → (profit_loss : N.F) → Event N
  broker_sl_tp : TrackedPosition N → ClosedContract N → Event N

pub record World {N : Floats} (X : Services N) : Type 0 where
  pub state : X.State
  pub published : List (Event N)

-- An optional text that is not empty.
abbrev pub truthy : Option String → Option String
truthy none = none
truthy (some t) = if str_eq t "" then none else some t

abbrev pub text_or : String → Option String → String
text_or d none = d
text_or d (some t) = t

abbrev pub accepted : Option Bool → Bool
accepted none = false
accepted (some ok) = ok

abbrev pub filled : TradeExecutionStatus → Bool
filled TradeExecutionStatus.filled = true
filled _ = false

module _ {N : Floats} (X : Services N) where
  unfoldable pub publish : Event N → World X → World X
  publish e w = record w { published = w.published ++ (e ∷ []) }

  unfoldable pub modify_sl : TrackedPosition N → N.F → World X → World X × Bool
  modify_sl p new_sl w =
      let (s, answer) = X.modify_order p.position_id p.account new_sl w.state in
      (record w { state = s }, accepted answer)

  -- Authorizing a Deriv client with the account's token, when there is one.
  unfoldable pub authorize : TradingAccount N → X.Client → X.State → X.State × Option X.Client
  authorize a c s = elim (truthy a.deriv_api_token) [
    | none ↦ (s, some c)
    | some token ↦
        let (s', ok) = X.connect_with_token c (text_or a.id (truthy a.deriv_login_id)) token s in
        if X.connects_with_token c then (s', (if ok then some c else none)) else (s, some c)
  ]

  abbrev or_legacy : Option X.Client → X.Client
  or_legacy none = X.legacy
  or_legacy (some c) = c

  unfoldable pub client_for_account : TradingAccount N → X.State → X.State × Option X.Client
  unfolding authorize
  client_for_account a s =
      let provider = X.lower (text_or "" a.broker_provider) in
      let routed =
        if X.has_router && not (str_eq provider "") then X.client_of provider else none in
      let c = or_legacy routed in if str_eq provider "deriv" then authorize a c s else (s, some c)

  -- The broker's details of a contract; a failure counts as none.
  unfoldable pub closed_details :
      Option X.Client → ℕ → X.State → X.State × Option (ClosedContract N)
  closed_details none id s = (s, none)
  closed_details (some c) id s =
      let (s', r) = X.fetch_closed_contract c id s in
      if X.fetches_contracts c then (s', elim r [ none ↦ none | some d ↦ d ]) else (s, none)

  -- The profit, price and time that are persisted: the broker's where it has them.
  abbrev settled_exit : TrackedPosition N → N.F → ℕ → Option (ClosedContract N) → N.F × N.F × ℕ
  settled_exit p fill now none = (fill, profit_at N p fill, now)
  settled_exit p fill now (some d) = (d.exit_price, d.profit_loss, d.closed_at)

  unfoldable pub persist_exit : TrackedPosition N → TradeExecutionResult N → World X → World X
  unfolding client_for_account closed_details profit_at profit_distance
  persist_exit p r w =
      let (s1, now) = X.now w.state in
      let (s2, client) = client_for_account p.account s1 in
      let (s3, details) = closed_details client p.position_id s2 in
      let (price, profit, at) = settled_exit p r.fill_price now details in
      let (s4, _) = X.record_exit p.position_id price profit at s3 in
      if X.has_persister then record w { state = s4 } else w

  unfoldable pub close_position : TrackedPosition N → String → World X → World X × Bool
  unfolding persist_exit publish profit_at
  close_position p reason w =
      let (s, answer) = X.close_position p.position_id p.account w.state in
      let w' : World X = record w { state = s } in
      elim answer [
        | none ↦ (w', false)
        | some r ↦
            if filled r.status
            then (
              persist_exit p r (publish (trade_exit p r reason (profit_at N p r.fill_price)) w'),
              true,
            )
            else (w', false)
      ]
