-- ===== src/Patcher.antt =====
-- internal/workload: patcher.go drives running pods towards a Recommendation, by the resize
-- subresource or by evictions one at a time, and apply.go decides what a pass does with a member.
pub mod Pods
pub mod Resources
pub mod Ordering
pub mod Cluster
pub mod Resizing
pub mod Waiting
pub mod Changes
pub mod Recycling
pub mod Termination
pub mod WaitLaws
pub mod Cautious
pub mod Bounds
pub mod Settled
pub mod Gating
pub mod Members
pub mod Applying
pub mod Restraint
pub mod Single
mod Examples
