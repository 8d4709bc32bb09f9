-- ===== src/Trading/Worker.antt =====
-- packages/execution-engine/src/worker/account_worker.py: `AccountWorker`, one cycle of its loop. The
-- risk manager and the signal consumer are those of Risk.antt and Consumer.antt; the kill switch, the
-- autopilot, the executor, the database and the position monitor are the interface Desk over an
-- unknown state. Waiting is left out.
pub mod Models
pub mod Cycle
pub mod Setup
pub mod Synthetic
pub mod Rehydrate
pub mod Simulate
mod Accepts
mod Resumed
mod Diagnosis
mod Verdict
mod Drain
mod Trades
mod Gates
mod Consent
mod DiagnosisTests
mod RehydrationTests
mod Tests
