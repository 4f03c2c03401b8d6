-- ===== src/Queue.antt =====
-- QueueManager of coilmq/queue.py.
pub mod State
pub mod Contract
pub mod Deliver
pub mod Drain
pub mod Leave
pub mod Subscribe
pub mod Disconnect
pub mod Eligible
pub mod Next
pub mod Ack
pub mod Send
pub mod Filed
pub mod Filing
pub mod Calls
pub mod Reach
pub mod Backlog
pub mod Methods
