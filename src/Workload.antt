-- ===== src/Workload.antt =====
-- internal/workload: how a Recommendation becomes the resources of a container, what of it a
-- Policy's tolerance withholds on a pod, and what the pass does with a pod.
pub mod Inject
pub mod InjectLaws
pub mod Sizes
pub mod Tolerance
pub mod Plan
pub mod Drift
mod Examples
