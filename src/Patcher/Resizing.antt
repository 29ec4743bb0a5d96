-- ===== src/Patcher/Resizing.antt =====
-- internal/workload/patcher.go: one pod's turn, its resize in place and its eviction.
use k8s_sustain.Prelude.{
  Bool, true, false, ◌&&◌, ◌||◌, not, Option, none, some, List, [], ◌++◌, String, String-discrete,
  lookup, is_filled, if◌then◌else◌,
}
use k8s_sustain.Units.{Quantities}
use k8s_sustain.Api.{ContainerRecommendation}
use k8s_sustain.WlrCache.{same_text}
use k8s_sustain.Workload.Plan.{PodChange, PodPlan, no_change, limit_change, request_change, stale}
use k8s_sustain.Patcher.Pods.{
  Pod, resize_pending_reason, reason_infeasible, reason_error, safe_to_evict_annotation, is_running,
}
use k8s_sustain.Patcher.Resources.{Resize, resized, staged_requests}
use k8s_sustain.Patcher.Cluster.{
  is_not_found, is_invalid, is_too_many_requests, Answer, granted, denied, Cluster, Failure,
  not_resized, not_evicted,
}

-- What a turn makes of a pod: the pod as the turn leaves it, the containers that its resizes
-- changed, whether it was evicted, and the error.
pub record Touched (Q : Type 0) : Type 0 where
  pub pod : Pod Q
  pub written : List String
  pub evicted : Bool
  pub error : Option Failure

pub record EvictionGate : Type 0 where
  pub ignore_safe_to_evict : Bool
  pub halted : Option Failure

-- Both hooks answer whether the pod is evicted, and the error.
pub record UnapplyStrategy (S Q : Type 0) : Type 0 where
  pub on_unsatisfiable : Pod Q → String → S → S × (Bool × Option Failure)
  pub on_unapplied : Pod Q → S → S × (Bool × Option Failure)

abbrev text_or_empty : Option String → String
text_or_empty none = ""
text_or_empty (some t) = t

module _ {Q : Type 0} where
  abbrev pub untouched : Pod Q → Touched Q
  untouched pod = record { pod = pod; written = []; evicted = false; error = none }

  abbrev pub hooked : {S : Type 0} → Pod Q → S × (Bool × Option Failure) → S × Touched Q
  hooked pod (s, (evicted, error)) =
      (s, record { pod = pod; written = []; evicted = evicted; error = error })

  unfoldable pub revert_staged_resize : Pod Q → Pod Q → Pod Q
  revert_staged_resize pod base = record pod {
    containers = base.containers;
    init_containers = base.init_containers;
  }

  -- The annotation forbids the eviction.
  unfoldable pub is_pinned : EvictionGate → Pod Q → Bool
  unfolding String-discrete
  is_pinned gate pod =
      not gate.ignore_safe_to_evict
      && same_text (text_or_empty (lookup String-discrete safe_to_evict_annotation pod.annotations))
          "false"

abbrev pub evicted_by : {S : Type 0} → S × Answer (Unit {0}) → S × (Bool × Option Failure)
evicted_by (s, granted _) = (s, (true, none))
evicted_by (s, denied is_not_found) = (s, (false, none))
evicted_by (s, denied is_too_many_requests) = (s, (false, none))
evicted_by (s, denied e) = (s, (false, some (not_evicted e)))

module _ {S Q : Type 0} where
  abbrev pub never_evict : UnapplyStrategy S Q
  never_evict = record {
    on_unsatisfiable = λ pod verdict s. (s, (false, none));
    on_unapplied = λ pod s. (s, (false, none));
  }

  abbrev pub sidecar_answered :
      Pod Q → Pod Q → List String → List String → S × Answer (Pod Q) → S × Touched Q
  sidecar_answered pod base sidecars written (s, granted stored) =
      (s, record { pod = stored; written = written ++ sidecars; evicted = false; error = none })
  sidecar_answered pod base sidecars written (s, denied _) = (
    s,
    record {
      pod = record pod { init_containers = base.init_containers };
      written = written;
      evicted = false;
      error = none;
    },
  )

module _ {S L Q : Type 0} (api : Cluster S L Q) where
  abbrev unless_halted : Option Failure → Pod Q → S → S × (Bool × Option Failure)
  unless_halted (some e) pod s = (s, (false, some e))
  unless_halted none pod s = evicted_by (api.evict pod s)

  unfoldable pub submit_eviction : Pod Q → EvictionGate → S → S × (Bool × Option Failure)
  unfolding is_pinned
  submit_eviction pod gate s =
      if is_pinned gate pod then (s, (false, none)) else unless_halted gate.halted pod s

  -- The resize of the sidecars, where one changes, after what was written.
  unfoldable pub apply_sidecar_resize : Resize Q → Pod Q → Pod Q → List String → S → S × Touched Q
  apply_sidecar_resize r pod base written s =
      if is_filled r.sidecars
      then sidecar_answered pod base r.sidecars written (
          api.resize (record pod { init_containers = r.init_containers })
            (record pod { init_containers = base.init_containers }) s)
      else (s, record { pod = pod; written = written; evicted = false; error = none })

  -- What follows the answer to the resize of the regular containers.
  abbrev pub answered :
      UnapplyStrategy S Q → Resize Q → Pod Q → Pod Q → S × Answer (Pod Q) → S × Touched Q
  answered strat r pod base (s, granted stored) = apply_sidecar_resize r stored base r.regular s
  answered strat r pod base (s, denied is_invalid) =
      hooked (revert_staged_resize pod base) (strat.on_unapplied (revert_staged_resize pod base) s)
  answered strat r pod base (s, denied is_not_found) = (s, untouched pod)
  answered strat r pod base (s, denied e) =
      (s, record { pod = pod; written = []; evicted = false; error = some (not_resized e) })

  unfoldable pub submit_in_place_resize : UnapplyStrategy S Q → Resize Q → Pod Q → S → S × Touched Q
  unfolding apply_sidecar_resize revert_staged_resize
  submit_in_place_resize strat r base s =
      let pod = record base { containers = r.containers } in
      answered strat r pod base (api.resize pod base s)

  -- The kubelet's verdict on a spec that carries the target already.
  unfoldable pub await_verdict : UnapplyStrategy S Q → Pod Q → S → S × Touched Q
  unfolding resize_pending_reason
  await_verdict strat pod s =
      let verdict = resize_pending_reason pod in
      if same_text verdict reason_infeasible || same_text verdict reason_error
      then hooked pod (strat.on_unsatisfiable pod verdict s)
      else (s, untouched pod)

  module _ ⦃qu : Quantities Q⦄ where
    unfoldable pub resize_pod_in_place_with :
        Pod Q → List (String × ContainerRecommendation Q) → UnapplyStrategy S Q → S → S × Touched Q
    unfolding resized await_verdict submit_in_place_resize
    resize_pod_in_place_with pod recs strat s =
        let r = resized pod recs in
        if is_filled r.regular
        then submit_in_place_resize strat r pod s
        else if is_filled r.sidecars
        then apply_sidecar_resize r pod pod [] s
        else await_verdict strat pod s

    unfoldable pub resize_pod_in_place_no_evict :
        Pod Q → List (String × ContainerRecommendation Q) → S → S × Touched Q
    unfolding resize_pod_in_place_with
    resize_pod_in_place_no_evict pod recs s = resize_pod_in_place_with pod recs never_evict s

    unfoldable pub evict_unapplied : EvictionGate → UnapplyStrategy S Q
    unfolding staged_requests submit_eviction
    evict_unapplied gate = record {
      on_unsatisfiable = λ pod verdict s.
          if not (staged_requests pod) then (s, (false, none)) else submit_eviction pod gate s;
      on_unapplied = λ pod s. submit_eviction pod gate s;
    }

    unfoldable pub patch_pod_in_place :
        Pod Q → List (String × ContainerRecommendation Q) → EvictionGate → S → S × Touched Q
    unfolding resize_pod_in_place_with evict_unapplied
    patch_pod_in_place pod recs gate s = resize_pod_in_place_with pod recs (evict_unapplied gate) s

    abbrev pub by_change :
        PodChange
        → List (String × ContainerRecommendation Q)
        → EvictionGate
        → Pod Q
        → S
        → S × Touched Q
    by_change limit_change recs gate pod s = resize_pod_in_place_no_evict pod recs s
    by_change no_change recs gate pod s = patch_pod_in_place pod recs gate s
    by_change request_change recs gate pod s = patch_pod_in_place pod recs gate s

    -- The part of a turn that the pod's plan decides.
    unfoldable pub touch : Bool → PodPlan Q → EvictionGate → Pod Q → S → S × Touched Q
    unfolding resize_pod_in_place_no_evict patch_pod_in_place submit_eviction
    touch in_place plan gate pod s =
        if in_place && is_running pod.phase
        then by_change plan.change plan.recs gate pod s
        else if stale plan
        then hooked pod (submit_eviction pod gate s)
        else (s, untouched pod)
