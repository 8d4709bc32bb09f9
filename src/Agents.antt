-- ===== src/Agents.antt =====
-- packages/strategy-engine/src/agents: the framework of the autonomous trading agents.
pub mod Models
pub mod StateMachine
pub mod TaskQueue
pub mod Equity
pub mod KillSwitch
pub mod Autonomy
pub mod Approval
