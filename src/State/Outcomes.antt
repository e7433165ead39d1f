-- ===== src/State/Outcomes.antt =====
-- What the operations of the store do on each of their branches.
pub mod Canceled
pub mod Pruned
pub mod Resumed
pub mod Expiry
pub mod Stuck
pub mod Created
pub mod Requeued
