-- ===== src/Shards.antt =====
-- internal/prometheus/shard.go: the batches of workload identities that one query reads.
pub mod Building
pub mod Counting
pub mod Coverage
pub mod Limits
pub mod Fitting
mod Examples
use k8s_sustain.Prelude.{ℕ, Bool, List, [], ◌∷◌, String, map}
use k8s_sustain.Prelude.Int.{ℤ}
use k8s_sustain.OomWatch.{Identity}

pub record ShardCandidate : Type 0 where
  pub identity : Identity
  pub containers : ℤ

pub record Shard : Type 0 where
  pub namespace : String
  pub owner_kind : String
  pub names : List String

-- The namespace and the owner's kind.
abbrev pub ShardGroupKey : Type 0
ShardGroupKey = String × String

-- `Shard.Identities`
abbrev pub identities : Shard → List Identity
identities s = map (λ name. (s.namespace, (s.owner_kind, name))) s.names

abbrev pub max_shard_members : ℕ
max_shard_members = 1_000
