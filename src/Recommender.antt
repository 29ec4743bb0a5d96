-- ===== src/Recommender.antt =====
-- internal/recommender: how one identity's requests and limits are computed.
pub mod Resources
pub mod Inputs
pub mod Signals
pub mod Coordination
pub mod Limits
pub mod Compute
pub mod Bounds
pub mod Winner
pub mod LimitLaws
pub mod Live
pub mod OomLaws
pub mod Gate
pub mod Justified
mod Examples
