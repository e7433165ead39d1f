-- ===== src/State/Ops.antt =====
-- internal/state/local_store.go: the operations of the store. Each is the function that the code
-- hands to `update`: it takes the snapshot and the time, and gives the snapshot to write and a
-- result, or an error, after which nothing is written.
pub mod Read
pub mod Enqueue
pub mod Cancel
pub mod Lease
pub mod Complete
pub mod Human
pub mod Retention
