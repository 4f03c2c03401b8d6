-- ===== src/Store.antt =====
-- The queue stores of coilmq/store: the interface that the queue manager uses, and its contract.
pub mod Interface
pub mod Memory
pub mod Dbm
pub mod Redis
pub mod Sa
