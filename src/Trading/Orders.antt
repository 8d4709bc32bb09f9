-- ===== src/Trading/Orders.antt =====
-- packages/execution-engine/src/executor/trade_executor.py: `TradeExecutor`. The broker clients are
-- the interface Clients over an unknown state; a call of one may raise, as an Outcome. `resolve` is
-- `_resolve_client` for an instrument and an account, `none` its RuntimeError. A failure to publish
-- is caught in the source, so `published` is what was handed to the event publisher, if there is
-- one. The id of a result, its time and the milliseconds that a call took are arguments.
pub mod Broker
pub mod Execute
pub mod Change
mod Retries
mod Outage
mod Books
mod Tests
