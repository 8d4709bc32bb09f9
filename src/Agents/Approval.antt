-- ===== src/Agents/Approval.antt =====
-- packages/strategy-engine/src/agents/approval.py: `ApprovalGateManager`. Redis is an interface: a hash
-- is named by the id in its key, and the index of pending requests is one set. The transitions of an
-- agent and the publications, whose failures are only logged, are recorded.
pub mod Records
pub mod Methods
pub mod Expiry
mod Final
mod Expired
mod Requests
mod Memory
mod Tests
