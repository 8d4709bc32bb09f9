-- ===== src/Trading.antt =====
-- packages/execution-engine/src: the checks and the steps between a signal and a broker's order.
pub mod Models
pub mod Samples
pub mod Risk
pub mod Lifecycle
pub mod KillSwitch
pub mod Candles
pub mod ExitRules
pub mod Positions
pub mod Brokers
pub mod Orders
pub mod Consumer
pub mod Worker
pub mod Supervisor
pub mod Autopilot
