-- ===== src/Autoscaler.antt =====
-- internal/autoscaler: what an HPA or a KEDA ScaledObject says of a workload, and which of them
-- counts for an identity. The Kubernetes lists are read elsewhere and are arguments here.
use k8s_sustain.Prelude.{
  Bool, true, false, not, Option, none, some, List, [], ◌∷◌, ◌++◌, String, String-discrete,
  pair_discrete, lookup, insert, if◌then◌else◌,
}
use k8s_sustain.Prelude.Int.{ℤ, pos, negsuc, ltb_ℤ}
use k8s_sustain.Api.{ResourceKind, ResourceKind-discrete}

pub data Kind : Type 0 where
  kind_none kind_hpa kind_keda : Kind

pub record Info : Type 0 where
  pub kind : Kind
  pub namespace : String
  pub name : String
  pub min_replicas : ℤ
  pub max_replicas : ℤ
  pub current_replicas : ℤ
  pub configured_targets : List (ResourceKind × ℤ)
  pub has_unknown_trigger : Bool

-- `Info{Kind: KindNone}`
abbrev pub no_info : Info
no_info = record {
  kind = kind_none;
  namespace = "";
  name = "";
  min_replicas = pos 0;
  max_replicas = pos 0;
  current_replicas = pos 0;
  configured_targets = [];
  has_unknown_trigger = false;
}

-- The kind and name of a scaleTargetRef.
abbrev pub TargetKey : Type 0
TargetKey = String × String

abbrev target_discrete : Discrete TargetKey
target_discrete = pair_discrete String-discrete String-discrete

pub record Snapshot : Type 0 where
  pub hpa : List (TargetKey × Info)
  pub keda : List (TargetKey × Info)

-- A ScaledObject wins over an HPA.
unfoldable pub lookup_info : Snapshot → String → String → Info
unfolding pair_discrete String-discrete
lookup_info s kind name = elim (lookup target_discrete (kind, name) s.keda) [
  | some info ↦ info
  | none ↦ elim (lookup target_discrete (kind, name) s.hpa) [ some info ↦ info | none ↦ no_info ]
]

-- The loop that indexes a listing by its scaleTargetRef: the first one listed wins.
unfoldable pub index_infos :
    List (TargetKey × Info) → List (TargetKey × Info) → List (TargetKey × Info)
unfolding pair_discrete String-discrete
index_infos [] out = out
index_infos ((key, info) ∷ items) out = index_infos items (elim (lookup target_discrete key out) [
  | some _ ↦ out
  | none ↦ insert target_discrete key info out
])

-- One metric of an HPA: its type is Resource and it has a resource, the resource's name, and the
-- averageUtilization of its target.
pub record MetricSpec : Type 0 where
  pub is_resource : Bool
  pub resource : Option ResourceKind
  pub average_utilization : Option ℤ

-- One metric's part in the targets, none for one that the code does not know.
unfoldable pub metric_target : MetricSpec → Option (ResourceKind × ℤ)
metric_target m = if not m.is_resource then none else elim m.average_utilization [
  | none ↦ none
  | some v ↦ elim m.resource [ none ↦ none | some res ↦ some (res, v) ]
]

unfoldable pub extract_hpa_targets :
    List MetricSpec → List (ResourceKind × ℤ) → Bool → List (ResourceKind × ℤ) × Bool
unfolding metric_target ResourceKind-discrete
extract_hpa_targets [] out unknown = (out, unknown)
extract_hpa_targets (m ∷ ms) out unknown =
    let next : List (ResourceKind × ℤ) × Bool = elim (metric_target m) [
      | none ↦ (out, true)
      | some (res, v) ↦ (insert ResourceKind-discrete res v out, unknown)
    ] in
    extract_hpa_targets ms next.0 next.1

-- The integers and floats of an unstructured object that int32Or reads; a float as it converts
-- to int64.
pub data Field : Type 0 where
  int_field float_field : ℤ → Field
  other_field : Field

abbrev max_int32 : ℤ
max_int32 = pos 0x7fffffff

abbrev min_int32 : ℤ
min_int32 = negsuc 0x7fffffff

unfoldable pub clamp_int32 : ℤ → ℤ
clamp_int32 v = if ltb_ℤ max_int32 v then max_int32 else if ltb_ℤ v min_int32 then min_int32 else v

unfoldable pub int32_or : Field → ℤ → ℤ
unfolding clamp_int32
int32_or (int_field v) fallback = clamp_int32 v
int32_or (float_field v) fallback = clamp_int32 v
int32_or other_field fallback = fallback

-- What targets each member of an identity.
pub record Group : Type 0 where
  pub info : Info
  pub members : List (String × Info)
  pub disagreeing : List (String × Kind)

abbrev same_kind : Kind → Kind → Bool
same_kind kind_none kind_none = true
same_kind kind_hpa kind_hpa = true
same_kind kind_keda kind_keda = true
same_kind _ _ = false

-- One turn of the loop over the sorted names. `first` is the first member's info.
unfoldable pub add_member : Info → String → Info → Group → Group
unfolding String-discrete
add_member first name info g = record {
  info = if same_kind g.info.kind kind_none then info else g.info;
  members = insert String-discrete name info g.members;
  disagreeing =
      if same_kind info.kind first.kind
      then g.disagreeing
      else g.disagreeing ++ (name, info.kind) ∷ [];
}

unfoldable pub group_members : Snapshot → String → Info → List String → Group → Group
unfolding lookup_info add_member
group_members snap kind first [] g = g
group_members snap kind first (name ∷ names) g =
    group_members snap kind first names (add_member first name (lookup_info snap kind name) g)

abbrev pub empty_group : Group
empty_group = record { info = no_info; members = []; disagreeing = [] }

-- `ForIdentity`, given the names in sorted order; a failed read of the namespace is none, and
-- answers the empty group with its error.
unfoldable pub for_identity : Option Snapshot → String → List String → Group × Bool
unfolding group_members lookup_info
for_identity snap kind [] = (empty_group, true)
for_identity none kind (name ∷ names) = (empty_group, false)
for_identity (some snap) kind (name ∷ names) =
    (group_members snap kind (lookup_info snap kind name) (name ∷ names) empty_group, true)
