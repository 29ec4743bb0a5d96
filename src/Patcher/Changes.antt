-- ===== src/Patcher/Changes.antt =====
-- internal/workload/patcher.go: what a pass notes of the pods that it changes, the result that it
-- comes to, and what halts its evictions.
use k8s_sustain.Prelude.{
  sort_stable, ℕ, ◌+◌, Bool, true, false, ◌&&◌, ◌||◌, not, Option, none, some, List, [], ◌∷◌, ◌++◌,
  String, String-discrete, lookup, insert, is_some, is_filled, if◌then◌else◌,
}
use Prim.Native.String.{compare}
use k8s_sustain.Units.{Quantities}
use k8s_sustain.Api.{ResourceKind, cpu, memory, ResourceKind-discrete, ContainerRecommendation}
use k8s_sustain.Workload.Inject.{ContainerWrite, inject}
use k8s_sustain.Workload.Tolerance.{Tolerance}
use k8s_sustain.Workload.Plan.{plan_for, stale}
use k8s_sustain.Ledger.{PodCounts}
use k8s_sustain.Patcher.Pods.{Pod, NameSet, countable, has_crash_loop_back_off, plan_of, count_pods}
use k8s_sustain.Patcher.Resources.{running_containers}
use k8s_sustain.Patcher.Cluster.{Failure, already_crashing, PassError, of_pod}
use k8s_sustain.Patcher.Resizing.{EvictionGate}

pub data RecommendOnly : Type 0 where
  by_flag by_policy : RecommendOnly

pub record ApplySettings (Q : Type 0) : Type 0 where
  -- what makes the member recommend-only, where something does
  pub recommend_only : Option RecommendOnly
  pub dry_run : Bool
  pub tolerance : Tolerance Q
  pub ignore_safe_to_evict : Bool

-- The pods of a pass, and where to find them again; in-place-only kinds leave that unset.
pub record PodSet (L Q : Type 0) : Type 0 where
  pub pods : List (Pod Q)
  pub namespace : String
  pub selector : Option L

abbrev pub Suppressed : Type 0
Suppressed = List (ResourceKind × ℕ)

pub record Changes : Type 0 where
  pub resized : List String
  pub evicted : List String
  pub suppressed : Suppressed
  pub fixed : NameSet
  pub containers : NameSet

unfoldable pub new_changes : Changes
new_changes = record { resized = []; evicted = []; suppressed = []; fixed = []; containers = [] }

abbrev count_of : Option ℕ → ℕ
count_of none = 0
count_of (some n) = n

unfoldable pub count_suppressed : ResourceKind → Suppressed → Suppressed
unfolding ResourceKind-discrete
count_suppressed r s =
    insert ResourceKind-discrete r (count_of (lookup ResourceKind-discrete r s) + 1) s

-- What a pass did, as far as the pass itself says it: `Apply` adds the kind and the step.
pub record PassResult : Type 0 where
  pub pods : PodCounts
  pub counted : Bool
  pub resized : List String
  pub evicted : List String
  pub containers : List String
  pub suppressed : Suppressed

unfoldable pub add_names : List String → NameSet → NameSet
unfolding String-discrete
add_names [] set = set
add_names (n ∷ ns) set = add_names ns (insert String-discrete n true set)

unfoldable pub names_of : {Q : Type 0} → List (ContainerWrite Q) → List String
names_of [] = []
names_of (w ∷ ws) = w.name ∷ names_of ws

unfoldable pub keys_of : NameSet → List String
keys_of [] = []
keys_of ((n, b) ∷ ns) = n ∷ keys_of ns

abbrev pub error_of_pod : String → Option Failure → List PassError
error_of_pod name none = []
error_of_pod name (some e) = of_pod name e ∷ []

-- A recommended value is set in the first and cleared in the second.
abbrev cleared : {A : Type 0} → Option A → Option A → Bool
cleared before after = is_some before && not (is_some after)

module _ {Q : Type 0} where
  -- One container's turn of `observeSuppressed`; the second map has the keys of the first.
  abbrev observe :
      ContainerRecommendation Q → Option (ContainerRecommendation Q) → Suppressed → Suppressed
  observe o none s = s
  observe o (some c) s =
      let seen =
        if cleared o.cpu_request c.cpu_request || cleared o.cpu_limit c.cpu_limit
        then count_suppressed cpu s
        else s in
      if cleared o.memory_request c.memory_request || cleared o.memory_limit c.memory_limit
      then count_suppressed memory seen
      else seen

  unfoldable pub observe_suppressed :
      List (String × ContainerRecommendation Q)
      → List (String × ContainerRecommendation Q)
      → Suppressed
      → Suppressed
  unfolding count_suppressed String-discrete
  observe_suppressed [] clamped s = s
  observe_suppressed ((name, o) ∷ recs) clamped s =
      observe_suppressed recs clamped (observe o (lookup String-discrete name clamped) s)

  -- `resized` of `changes`.
  unfoldable pub note_resized : Pod Q → List String → Changes → Changes
  unfolding add_names String-discrete
  note_resized pod written ch = record ch {
    resized = ch.resized ++ pod.name ∷ [];
    fixed = insert String-discrete pod.uid true ch.fixed;
    containers = add_names written ch.containers;
  }

module _ {Q : Type 0} ⦃qu : Quantities Q⦄ where
  -- `evicted` of `changes`.
  unfoldable pub note_evicted :
      Pod Q → List (String × ContainerRecommendation Q) → Changes → Changes
  unfolding running_containers inject add_names names_of String-discrete
  note_evicted pod recs ch =
      let (containers, init_containers) = running_containers pod in
      record ch {
        evicted = ch.evicted ++ pod.name ∷ [];
        fixed = insert String-discrete pod.uid true ch.fixed;
        containers =
            add_names (names_of (inject containers init_containers false recs).writes)
              ch.containers;
      }

  -- `result` of `changes`, against the pods as the pass leaves them.
  unfoldable pub result_of :
      List (Pod Q)
      → List (String × ContainerRecommendation Q)
      → Tolerance Q
      → Changes
      → List PassError
      → PassResult × List PassError
  unfolding count_pods keys_of sort_stable
  result_of pods recs tol ch errors =
      let counts =
        if is_filled errors
        then record { total = 0; stale = 0 }
        else count_pods pods recs tol ch.fixed (record { total = 0; stale = 0 }) in
      (
        record {
          pods = counts;
          counted = not (is_filled errors);
          resized = ch.resized;
          evicted = ch.evicted;
          containers = sort_stable compare (keys_of ch.containers);
          suppressed = ch.suppressed;
        },
        errors,
      )

  unfoldable pub updated_pod_crash_looping :
      List (Pod Q) → List (String × ContainerRecommendation Q) → Tolerance Q → Option Failure
  unfolding countable has_crash_loop_back_off plan_for
  updated_pod_crash_looping [] recs tol = none
  updated_pod_crash_looping (pod ∷ pods) recs tol =
      let rest = updated_pod_crash_looping pods recs tol in
      if not (countable pod) || not (has_crash_loop_back_off pod)
      then rest
      else if stale (plan_of pod recs tol)
      then rest
      else some (already_crashing pod.name)

  abbrev pub gate_of :
      List (Pod Q) → List (String × ContainerRecommendation Q) → ApplySettings Q → EvictionGate
  gate_of pods recs settings = record {
    ignore_safe_to_evict = settings.ignore_safe_to_evict;
    halted = updated_pod_crash_looping pods recs settings.tolerance;
  }
