-- ===== src/OomWatch.antt =====
-- internal/oomwatch/types.go: the observations of OOM kills and their keys.
pub mod Cache
pub mod Index
pub mod Eviction
pub mod Sound
pub mod Reads
pub mod Recording
mod Examples
use k8s_sustain.Prelude.{ℕ, String, String-discrete, pair_discrete}
use k8s_sustain.Prelude.Time.{Time}

-- The namespace, the owner's kind and the owner's name of a workload, from
-- internal/prometheus/identity.go.
abbrev pub Identity : Type 0
Identity = String × (String × String)

abbrev pub identity_discrete : Discrete Identity
identity_discrete = pair_discrete String-discrete (pair_discrete String-discrete String-discrete)

-- An identity and a container of it.
abbrev pub Key : Type 0
Key = Identity × String

abbrev pub key_discrete : Discrete Key
key_discrete = pair_discrete identity_discrete String-discrete

-- An observed OOM kill. A restart count and a limit in bytes are not negative.
pub record OomRecord : Type 0 where
  pub container : String
  pub policy_name : String
  pub observed_at : Time
  pub terminated_at : Time
  pub restart_count : ℕ
  pub pod_name : String
  pub pod_uid : String
  -- 0 when the container had no memory limit
  pub oom_limit_bytes : ℕ
