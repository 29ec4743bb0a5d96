-- ===== src/WlrCache.antt =====
-- internal/wlrcache: the life of a WorkloadRecommendation, the object that the controller writes
-- and the webhook reads, with its type from api/v1alpha1/workloadrecommendation_types.go.
pub mod Reading
pub mod ReadLaws
pub mod Client
pub mod Writing
pub mod Handlers
pub mod Deleting
pub mod RecordLaws
pub mod History
pub mod Retention
pub mod Equivalence
pub mod Stamps
pub mod Unchanged
pub mod DeletionLaws
mod Examples
use k8s_sustain.Prelude.{
  ℕ, ◌+◌, ◌-◌, ◌*◌, ◌≤◌, Bool, true, false, ◌&&◌, ◌||◌, not, Option, none, some, List, [], ◌∷◌,
  String, String-discrete, is_same, lookup, length, is_filled, leb, ◌==◌, if◌then◌else◌,
}
use k8s_sustain.Prelude.Int.{ℤ, pos, ◌*ℤ◌, max_ℤ, int64}
use k8s_sustain.Prelude.Time.{Time, zero_time, is_zero, after, add, rfc3339_copy, minute, hour}
use k8s_sustain.Units.{Quantities, same, is_zero_quantity}
use k8s_sustain.Api.{ContainerRecommendation, ContainerTrace}
use Prim.Native.String.{len, slice, ◌++◌ as text_append}

pub record WorkloadReference : Type 0 where
  pub kind : String
  pub namespace : String
  pub name : String

-- What the last pass decided; the empty text is `undecided`.
pub data Outcome : Type 0 where
  undecided computed no_data too_young fetch_failed conflicted : Outcome

abbrev pub same_outcome : Outcome → Outcome → Bool
same_outcome undecided undecided = true
same_outcome computed computed = true
same_outcome no_data no_data = true
same_outcome too_young too_young = true
same_outcome fetch_failed fetch_failed = true
same_outcome conflicted conflicted = true
same_outcome _ _ = false

pub record Observed (Q : Type 0) : Type 0 where
  pub init : Bool
  pub cpu_request : Option Q
  pub memory_request : Option Q
  pub cpu_limit : Option Q
  pub memory_limit : Option Q

abbrev pub Snapshot : Type 0 → Type 0
Snapshot Q = List (String × Observed Q)

pub record Status (F Q : Type 0) : Type 0 where
  pub observed_at : Time
  pub outcome : Outcome
  pub computed_by : String
  pub departed : Bool
  pub servable_until : Time
  pub containers : List (String × ContainerRecommendation Q)
  pub trace : List (String × ContainerTrace F Q)
  pub observed_resources : Snapshot Q

-- The object, with the metadata that the code reads. A label that is not set reads as empty.
pub record Object (F Q : Type 0) : Type 0 where
  pub namespace : String
  pub name : String
  pub policy_label : String
  pub stub_label : String
  pub created : Time
  pub uid : String
  pub resource_version : String
  pub ref : WorkloadReference
  pub policy : String
  pub status : Status F Q

abbrev pub max_name_length : ℕ
max_name_length = 253

-- `Name`, over the lower case of a text and the hexadecimal SHA-256 of one.
unfoldable pub object_name : (to_lower sha256_hex : String → String) → String → String → String
object_name to_lower sha256_hex kind name =
    let n = text_append (to_lower kind) (text_append "-" name) in
    let hash = slice (sha256_hex n) 0 10 in
    if leb (len n) max_name_length
    then n
    else text_append (slice n 0 (max_name_length - len hash - 1)) (text_append "-" hash)

abbrev pub refresh_interval : ℕ
refresh_interval = 10 * minute

abbrev pub min_staleness_budget : ℕ
min_staleness_budget = 30 * minute

abbrev pub default_retention : ℕ
default_retention = 168 * hour

pub record Lifetimes : Type 0 where
  pub reconcile_interval : ℤ
  pub retention : ℤ

unfoldable pub staleness_budget : Lifetimes → ℤ
staleness_budget l = max_ℤ (pos min_staleness_budget) (int64 (pos 3 *ℤ l.reconcile_interval))

abbrev pub last_computed : Time → Time → Time
last_computed created observed_at = if after created observed_at then created else observed_at

abbrev pub same_text : String → String → Bool
same_text = is_same String-discrete

module _ {F Q : Type 0} where
  -- A Recommendation that nothing refreshes.
  abbrev pub is_frozen : Status F Q → Bool
  is_frozen status = status.departed || same_outcome status.outcome conflicted

  unfoldable pub window : Lifetimes → Status F Q → ℤ
  unfolding staleness_budget
  window l status = if is_frozen status then l.retention else staleness_budget l

  unfoldable pub servable_until : Lifetimes → Time → Status F Q → Time
  unfolding window
  servable_until l created status =
      if not (is_filled status.containers)
      then zero_time
      else rfc3339_copy
          (add (rfc3339_copy (last_computed created status.observed_at)) (window l status))

  unfoldable pub stamp : Lifetimes → Object F Q → Status F Q → Bool → Time
  unfolding servable_until
  stamp l known status is_computed =
      if is_zero known.status.servable_until && not is_computed
      then zero_time
      else servable_until l known.created status

abbrev pub same_bool : Bool → Bool → Bool
same_bool true b = b
same_bool false b = not b

-- The loop over one map: each entry has its match in the other.
unfoldable pub all_match :
    {V : Type 0} → (V → V → Bool) → List (String × V) → List (String × V) → Bool
unfolding String-discrete
all_match f [] b = true
all_match f ((name, v) ∷ a) b =
    elim (lookup String-discrete name b) [ none ↦ false | some w ↦ f v w ] && all_match f a b

module _ {Q : Type 0} ⦃qu : Quantities Q⦄ where
  abbrev pub reads_zero : Option Q → Bool
  reads_zero none = true
  reads_zero (some q) = is_zero_quantity q

  both_set : Option Q → Option Q → Bool
  both_set (some a) (some b) = same a b
  both_set _ _ = false

  -- A nil and an explicit zero are the same.
  unfoldable pub quantity_equal : Option Q → Option Q → Bool
  unfolding both_set
  quantity_equal a b =
      if reads_zero a || reads_zero b then same_bool (reads_zero a) (reads_zero b) else both_set a b

  unfoldable pub observed_matches : Observed Q → Observed Q → Bool
  unfolding quantity_equal
  observed_matches a b =
      same_bool a.init b.init
      && quantity_equal a.cpu_request b.cpu_request
      && quantity_equal a.memory_request b.memory_request
      && quantity_equal a.cpu_limit b.cpu_limit
      && quantity_equal a.memory_limit b.memory_limit

  unfoldable pub recommendation_matches :
      ContainerRecommendation Q → ContainerRecommendation Q → Bool
  unfolding quantity_equal
  recommendation_matches a b =
      quantity_equal a.cpu_request b.cpu_request
      && quantity_equal a.memory_request b.memory_request
      && quantity_equal a.cpu_limit b.cpu_limit
      && quantity_equal a.memory_limit b.memory_limit
      && same_bool a.remove_cpu_limit b.remove_cpu_limit
      && same_bool a.remove_memory_limit b.remove_memory_limit

  -- `observedEqual`.
  unfoldable pub observed_equal : Snapshot Q → Snapshot Q → Bool
  unfolding all_match observed_matches
  observed_equal a b = (length a == length b) && all_match observed_matches a b

module _ {F Q : Type 0} ⦃qu : Quantities Q⦄ where
  -- `statusEquivalent`: the instants and the trace are left out.
  unfoldable pub status_equivalent : Status F Q → Status F Q → Bool
  unfolding all_match observed_equal recommendation_matches String-discrete
  status_equivalent a b =
      same_outcome a.outcome b.outcome
      && same_text a.computed_by b.computed_by
      && same_bool a.departed b.departed
      && (length a.containers == length b.containers)
      && all_match recommendation_matches a.containers b.containers
      && observed_equal a.observed_resources b.observed_resources
