-- ===== src/Trading/Positions.antt =====
-- packages/execution-engine/src/monitor/position_monitor.py: `PositionMonitor`, which holds open
-- positions against their exit rules.
pub mod Models
pub mod Broker
pub mod Rules
pub mod Cycle
pub mod Reconcile
mod Stops
mod Partial
mod External
mod InStep
mod Loosened
mod Deadline
mod Tests
