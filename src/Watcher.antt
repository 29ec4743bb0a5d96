-- ===== src/Watcher.antt =====
-- internal/oomwatch/watcher.go: the OOM kills that a pod's status shows.
pub mod Retrying
pub mod Reconciling
pub mod Kills
pub mod Passing
pub mod Sound
mod Examples
use k8s_sustain.Prelude.{
  ℕ, ◌++◌, Bool, true, false, ◌&&◌, not, Option, none, some, List, [], ◌∷◌, String, lookup,
  is_filled, is_some, String-discrete, if◌then◌else◌,
}
use k8s_sustain.Prelude.Time.{Time}
use k8s_sustain.Units.{Quantities, is_zero_quantity}
use k8s_sustain.Api.{ResourceKind-discrete, memory, ResourceList, ResourceRequirements, Container}
use k8s_sustain.WlrCache.{same_text}
use k8s_sustain.Governance.{Texts, policy_annotation}
use k8s_sustain.Governance.Walk.{Subject, a_pod}

abbrev pub oom_killed_reason : String
oom_killed_reason = "OOMKilled"

pub record Termination : Type 0 where
  pub reason : String
  pub finished_at : Time

pub record ContainerStatus (Q : Type 0) : Type 0 where
  pub name : String
  pub state_terminated : Option Termination
  pub last_terminated : Option Termination
  pub restart_count : ℕ
  -- what the kubelet applied
  pub resources : Option (ResourceRequirements Q)

pub record Pod (Q : Type 0) : Type 0 where
  pub name : String
  pub namespace : String
  pub uid : String
  pub labels : Texts
  pub annotations : Texts
  -- `metav1.GetControllerOf` finds one
  pub has_controller : Bool
  -- the restartPolicy is Never
  pub never_restarts : Bool
  pub containers : List (Container Q)
  pub container_statuses : List (ContainerStatus Q)

pub record OomKill : Type 0 where
  pub container : String
  pub restarted : Bool
  pub restart_count : ℕ
  pub terminated_at : Time
  pub limit_bytes : ℕ

-- `governance.Pod`
unfoldable pub subject_of : {Q : Type 0} → Pod Q → Subject
subject_of pod = record {
  namespace = pod.namespace;
  labels = pod.labels;
  annotations = pod.annotations;
  origin = a_pod pod.has_controller;
}

unfoldable pub is_oom_kill : Option Termination → Bool
is_oom_kill none = false
is_oom_kill (some term) = same_text term.reason oom_killed_reason

abbrev pub or_zero : Option ℕ → ℕ
or_zero none = 0
or_zero (some n) = n

module _ {Q : Type 0} ⦃qu : Quantities Q⦄ (as_int64 : Q → Option ℕ) where
  -- `memLimitBytes`. A list that is nil or has no memory answers a zero quantity; `as_int64` is
  -- `AsInt64`, none when the value does not fit.
  unfoldable pub mem_limit_bytes : ResourceList Q → ℕ
  mem_limit_bytes limits = elim (lookup ResourceKind-discrete memory limits) [
    | none ↦ 0
    | some q ↦ if is_zero_quantity q then 0 else or_zero (as_int64 q)
  ]

  -- The second loop of `containerMemLimitBytes`, over the containers of the spec.
  unfoldable pub spec_limit_bytes : String → List (Container Q) → ℕ
  unfolding mem_limit_bytes
  spec_limit_bytes name [] = 0
  spec_limit_bytes name (c ∷ cs) =
      if same_text c.name name then mem_limit_bytes c.resources.limits else spec_limit_bytes name cs

  -- The first loop, over the statuses that report resources, with what the second answers.
  unfoldable pub applied_limit_bytes : String → ℕ → List (ContainerStatus Q) → ℕ
  unfolding mem_limit_bytes
  applied_limit_bytes name of_spec [] = of_spec
  applied_limit_bytes name of_spec (cs ∷ rest) =
      let later = applied_limit_bytes name of_spec rest in
      elim cs.resources [
        | none ↦ later
        | some r ↦ if same_text cs.name name then mem_limit_bytes r.limits else later
      ]

  unfoldable pub container_mem_limit_bytes : Pod Q → String → ℕ
  unfolding spec_limit_bytes applied_limit_bytes
  container_mem_limit_bytes pod name =
      applied_limit_bytes name (spec_limit_bytes name pod.containers) pod.container_statuses

  abbrev pub kill_of : Pod Q → ContainerStatus Q → Bool → Option Termination → List OomKill
  kill_of pod cs restarted none = []
  kill_of pod cs restarted (some term) =
      if is_oom_kill (some term)
      then record {
        container = cs.name;
        restarted = restarted;
        restart_count = cs.restart_count;
        terminated_at = term.finished_at;
        limit_bytes = container_mem_limit_bytes pod cs.name;
      }
        ∷ []
      else []

  -- The kill that one status shows, if any.
  unfoldable pub status_kill : Pod Q → ContainerStatus Q → List OomKill
  unfolding is_oom_kill container_mem_limit_bytes
  status_kill pod cs =
      if not (is_oom_kill cs.last_terminated) && pod.never_restarts
      then kill_of pod cs false cs.state_terminated
      else kill_of pod cs true cs.last_terminated

  unfoldable pub kills_in : Pod Q → List (ContainerStatus Q) → List OomKill
  unfolding status_kill
  kills_in pod [] = []
  kills_in pod (cs ∷ rest) = status_kill pod cs ++ kills_in pod rest

  unfoldable pub oom_kills : Pod Q → List OomKill
  unfolding kills_in
  oom_kills pod = kills_in pod pod.container_statuses

  -- The predicate on the events of create, update and generic; a delete is never admitted.
  unfoldable pub admits : Pod Q → Bool
  unfolding oom_kills
  admits pod =
      if is_some (lookup String-discrete policy_annotation pod.annotations)
      then true
      else is_filled (oom_kills pod)
