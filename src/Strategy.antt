-- ===== src/Strategy.antt =====
-- packages/strategy-engine/src/strategy: what the algorithms share.
pub mod Sessions
pub mod Guards
mod Windows
mod Sizes
mod Tests
