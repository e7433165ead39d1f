-- ===== src/State.antt =====
-- internal/state: the runs, the jobs and the human tasks of the control plane.
pub mod Types
pub mod Payload
pub mod Result
pub mod AtRest
pub mod Crypto
pub mod Events
pub mod Claim
pub mod Ops
pub mod Consistent
pub mod Step
pub mod History
pub mod Claims
pub mod Outcomes
pub mod Settings
pub mod Releases
pub mod Webhook
mod Examples
