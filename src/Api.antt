-- ===== src/Api.antt =====
-- The fields of the API types (api/v1alpha1) and of Kubernetes containers that the code computes
-- with, over a type Q of quantities and a type F of floats.
use k8s_sustain.Prelude.{Bool, Option, List, String}
use k8s_sustain.Prelude.Int.{ℤ}
use k8s_sustain.Prelude.Time.{Time}

-- The two resources that a Recommendation sizes. A resource list keeps these two keys alone: the
-- code reads and writes no other.
pub data ResourceKind : Type 0 where
  cpu memory : ResourceKind

unfoldable pub ResourceKind-discrete : Discrete ResourceKind
ResourceKind-discrete cpu cpu = yes (λ i. cpu)
ResourceKind-discrete memory memory = yes (λ i. memory)
ResourceKind-discrete cpu memory = no (λ e. cc)
ResourceKind-discrete memory cpu = no (λ e. cc)

abbrev pub ResourceList : Type 0 → Type 0
ResourceList Q = List (ResourceKind × Q)

pub record ResourceRequirements (Q : Type 0) : Type 0 where
  pub requests : ResourceList Q
  pub limits : ResourceList Q

pub record Container (Q : Type 0) : Type 0 where
  pub name : String
  pub resources : ResourceRequirements Q
  -- `restartPolicy: Always` on an init container
  pub restarts_always : Bool

pub record RequestsConfig (Q : Type 0) : Type 0 where
  pub headroom : Option ℤ
  pub keep_request : Bool
  pub max_allowed : Option Q
  pub min_allowed : Option Q
  pub percentile : Option ℤ

pub record LimitsConfig (F : Type 0) : Type 0 where
  pub equals_to_request : Bool
  pub keep_limit : Bool
  pub keep_limit_request_ratio : Bool
  pub no_limit : Bool
  pub requests_limits_ratio : Option F

pub record DownsizeThreshold (Q : Type 0) : Type 0 where
  pub percent : Option ℤ
  pub min_decrease : Option Q

pub record ResourceConfig (F Q : Type 0) : Type 0 where
  pub window : String
  pub requests : RequestsConfig Q
  pub limits : LimitsConfig F
  pub downsize_threshold : Option (DownsizeThreshold Q)

pub record ResourcesConfigs (F Q : Type 0) : Type 0 where
  pub cpu_config : ResourceConfig F Q
  pub memory_config : ResourceConfig F Q

pub record AutoscalerCoordination (F : Type 0) : Type 0 where
  pub enabled : Bool
  pub replica_budget_anchor : Option F

-- An unset quantity means "leave the entry alone"; the two flags strip the limit.
pub record ContainerRecommendation (Q : Type 0) : Type 0 where
  pub cpu_request : Option Q
  pub memory_request : Option Q
  pub cpu_limit : Option Q
  pub memory_limit : Option Q
  pub remove_cpu_limit : Bool
  pub remove_memory_limit : Bool

-- What a trace stage notes under a name: the value that the source renders to text.
pub data Fact (F Q : Type 0) : Type 0 where
  flag : Bool → Fact F Q
  word : String → Fact F Q
  factor : F → Fact F Q
  amount : Q → Fact F Q
  instant : Time → Fact F Q

pub record TraceStage (F Q : Type 0) : Type 0 where
  pub stage : String
  pub value : Option Q
  pub removed : Bool
  pub facts : List (String × Fact F Q)

pub record ResourceTrace (F Q : Type 0) : Type 0 where
  pub request : List (TraceStage F Q)
  pub limit : List (TraceStage F Q)

pub record ContainerTrace (F Q : Type 0) : Type 0 where
  pub cpu_trace : Option (ResourceTrace F Q)
  pub memory_trace : Option (ResourceTrace F Q)
