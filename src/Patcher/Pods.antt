-- ===== src/Patcher/Pods.antt =====
-- internal/workload/patcher.go: a pod as the patcher reads it, and the tests it makes of one.
use k8s_sustain.Prelude.{
  ◌+◌, Bool, true, false, ◌&&◌, ◌||◌, not, Option, none, some, List, [], ◌∷◌, ◌++◌, String,
  String-discrete, lookup, any, if◌then◌else◌,
}
use k8s_sustain.Units.{Quantities}
use k8s_sustain.Api.{ResourceRequirements, Container, ContainerRecommendation}
use k8s_sustain.WlrCache.{same_text}
use k8s_sustain.Ledger.{PodCounts}
use k8s_sustain.Workload.Tolerance.{Tolerance}
use k8s_sustain.Workload.Plan.{PodPlan, plan_for, stale}

pub data PodPhase : Type 0 where
  pending running succeeded failed_phase unknown_phase : PodPhase

abbrev pub is_running : PodPhase → Bool
is_running running = true
is_running _ = false

abbrev pub is_terminal : PodPhase → Bool
is_terminal succeeded = true
is_terminal failed_phase = true
is_terminal _ = false

-- The condition types that the code reads.
pub data ConditionType : Type 0 where
  resize_pending resize_in_progress pod_ready other_condition : ConditionType

pub record Condition : Type 0 where
  pub type : ConditionType
  -- the status is "True"
  pub holds : Bool
  pub reason : String

pub record ContainerStatus (Q : Type 0) : Type 0 where
  pub name : String
  -- the reason of `state.waiting`, where that is set
  pub waiting : Option String
  pub resources : Option (ResourceRequirements Q)

-- An unset `controller` is false.
pub record OwnerReference : Type 0 where
  pub kind : String
  pub name : String
  pub uid : String
  pub controller : Bool

pub record Pod (Q : Type 0) : Type 0 where
  pub name : String
  pub namespace : String
  pub uid : String
  -- a deletion timestamp is set
  pub deleting : Bool
  pub phase : PodPhase
  pub annotations : List (String × String)
  pub owners : List OwnerReference
  pub containers : List (Container Q)
  pub init_containers : List (Container Q)
  pub conditions : List Condition
  pub container_statuses : List (ContainerStatus Q)
  pub init_container_statuses : List (ContainerStatus Q)
  pub ephemeral_container_statuses : List (ContainerStatus Q)

-- The values of core/v1 that the code compares with.
abbrev pub reason_infeasible : String
reason_infeasible = "Infeasible"

abbrev pub reason_deferred : String
reason_deferred = "Deferred"

abbrev pub reason_error : String
reason_error = "Error"

abbrev pub safe_to_evict_annotation : String
safe_to_evict_annotation = "cluster-autoscaler.kubernetes.io/safe-to-evict"

unfoldable pub is_owned_by : List OwnerReference → String → Bool
is_owned_by refs uid = any (λ ref. ref.controller && same_text ref.uid uid) refs

unfoldable pub is_owned_by_kind : List OwnerReference → String → Bool
is_owned_by_kind refs kind = any (λ ref. ref.controller && same_text ref.kind kind) refs

-- The loop of `resizePendingReason`, with `errored` so far.
unfoldable pub pending_reason : Bool → List Condition → String
pending_reason errored [] = if errored then reason_error else ""
pending_reason errored (c ∷ cs) =
    let rest =
      pending_reason
        (elim c.type [
          | resize_in_progress ↦ errored || (c.holds && same_text c.reason reason_error)
          | _ ↦ errored
        ])
        cs in
    elim c.type [ resize_pending ↦ if c.holds then c.reason else rest | _ ↦ rest ]

-- The test of a reason, false where nothing waits.
abbrev pub is_waiting_for : String → Option String → Bool
is_waiting_for reason none = false
is_waiting_for reason (some r) = same_text r reason

abbrev is_ready : Condition → Bool
is_ready c = elim c.type [ pod_ready ↦ c.holds | _ ↦ false ]

-- A Go set, as a map of names to true; a name that is absent reads as false.
abbrev pub NameSet : Type 0
NameSet = List (String × Bool)

abbrev pub holds_of : Option Bool → Bool
holds_of none = false
holds_of (some b) = b

abbrev pub is_in : String → NameSet → Bool
is_in name names = holds_of (lookup String-discrete name names)

module _ {Q : Type 0} where
  unfoldable pub countable : Pod Q → Bool
  countable pod = not pod.deleting && not (is_terminal pod.phase)

  unfoldable pub pod_containers : Pod Q → List (Container Q)
  pod_containers pod = pod.containers ++ pod.init_containers

  unfoldable pub resize_pending_reason : Pod Q → String
  unfolding pending_reason
  resize_pending_reason pod = pending_reason false pod.conditions

  unfoldable pub containers_crashing : List (ContainerStatus Q) → Bool
  containers_crashing = any (λ c. is_waiting_for "CrashLoopBackOff" c.waiting)

  unfoldable pub has_crash_loop_back_off : Pod Q → Bool
  unfolding containers_crashing
  has_crash_loop_back_off pod =
      containers_crashing pod.container_statuses
      || containers_crashing pod.init_container_statuses
      || containers_crashing pod.ephemeral_container_statuses

  unfoldable pub is_pod_ready : Pod Q → Bool
  is_pod_ready pod = if not (is_running pod.phase) then false else any is_ready pod.conditions

  unfoldable pub is_progressing : Pod Q → Bool
  unfolding is_pod_ready
  is_progressing pod = if pod.deleting then false else elim pod.phase [
    | succeeded ↦ false
    | failed_phase ↦ false
    | pending ↦ true
    | _ ↦ not (is_pod_ready pod)
  ]

module _ {Q : Type 0} ⦃qu : Quantities Q⦄ where
  -- `planFor` on a pod.
  abbrev pub plan_of : Pod Q → List (String × ContainerRecommendation Q) → Tolerance Q → PodPlan Q
  plan_of pod recs tol = plan_for pod.containers pod.init_containers recs tol

  unfoldable pub count_pods :
      List (Pod Q)
      → List (String × ContainerRecommendation Q)
      → Tolerance Q
      → NameSet
      → PodCounts
      → PodCounts
  unfolding countable plan_for
  count_pods [] recs tol fixed pc = pc
  count_pods (pod ∷ pods) recs tol fixed pc = count_pods pods recs tol fixed (
      if not (countable pod) then pc else record {
        total = pc.total + 1;
        stale =
            if not (is_in pod.uid fixed) && stale (plan_of pod recs tol)
            then pc.stale + 1
            else pc.stale;
      })
