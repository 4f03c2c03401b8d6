-- ===== src/Protocol.antt =====
-- coilmq/protocol/__init__.py: STOMP 1.0.
pub mod Unbound
pub mod Command
pub mod Stomp10
pub mod Guards
pub mod Transactions
pub mod Depth
pub mod Preserves
pub mod Kept
pub mod Invariant
pub mod Ignores
pub mod Bare
pub mod Commit
