-- ===== src/Redis.antt =====
-- Redis as the engines use it. The server is not part of the repository: each interface holds the
-- commands that one group of modules calls, over an unknown database, and the documented laws that
-- the theorems rely on. A command is taken to succeed; where the source catches a failure of the
-- connection, the failure is an argument of the model.
pub mod Values
pub mod Queue
