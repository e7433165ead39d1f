-- ===== src/State/Claims.antt =====
-- What ClaimJobForWorker promises: the order of claims, the limits of apps, and lost workers.
pub mod Order
pub mod Room
pub mod Expired
