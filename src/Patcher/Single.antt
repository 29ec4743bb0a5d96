-- ===== src/Patcher/Single.antt =====
-- A pod's turn either resizes it or evicts it (internal/workload/patcher.go).
use k8s_sustain.Prelude.{
  ◌≡◌, refl, Bool, false, ◌&&◌, ◌||◌, Option, List, [], String, is_filled, arith, if_both,
}
use k8s_sustain.Units.{Quantities}
use k8s_sustain.Api.{ContainerRecommendation}
use k8s_sustain.WlrCache.{same_text}
use k8s_sustain.Workload.Plan.{PodChange, no_change, limit_change, request_change, PodPlan, stale}
use k8s_sustain.Patcher.Pods.{
  Pod, is_running, resize_pending_reason, reason_infeasible, reason_error,
}
use k8s_sustain.Patcher.Resources.{Resize, resized}
use k8s_sustain.Patcher.Cluster.{
  Answer, granted, denied, is_not_found, is_invalid, is_too_many_requests, otherwise, Cluster,
  Failure,
}
use k8s_sustain.Patcher.Resizing.{
  Touched, EvictionGate, UnapplyStrategy, hooked, sidecar_answered, apply_sidecar_resize, answered,
  submit_in_place_resize, await_verdict, resize_pod_in_place_with, never_evict,
  resize_pod_in_place_no_evict, evict_unapplied, patch_pod_in_place, by_change, submit_eviction,
  touch,
}

-- No pod is both resized and evicted.
abbrev pub IsSingle : {S Q : Type 0} → S × Touched Q → Type 0
IsSingle (s, t) = (is_filled t.written && t.evicted) ≡ false

hooked-IsSingle :
    {S Q : Type 0} (pod : Pod Q) (r : S × (Bool × Option Failure)) → IsSingle (hooked pod r)
hooked-IsSingle pod (s, (evicted, error)) = refl

sidecar_answered-IsSingle :
    {S Q : Type 0} (pod base : Pod Q) (sidecars written : List String) (r : S × Answer (Pod Q))
    → IsSingle (sidecar_answered pod base sidecars written r)
sidecar_answered-IsSingle pod base sidecars written (s, granted stored) = ground arith
sidecar_answered-IsSingle pod base sidecars written (s, denied x) = ground arith

module _ {S L Q : Type 0} ⦃qu : Quantities Q⦄ (api : Cluster S L Q) where
  apply_sidecar_resize-IsSingle :
      (r : Resize Q) (pod base : Pod Q) (written : List String) (s : S)
      → IsSingle (apply_sidecar_resize api r pod base written s)
  unfolding apply_sidecar_resize
  apply_sidecar_resize-IsSingle r pod base written s =
      if_both IsSingle (is_filled r.sidecars) _ _
        (sidecar_answered-IsSingle (record pod { init_containers = r.init_containers }) base
          r.sidecars written _)
        (ground arith)

  answered-IsSingle :
      (strat : UnapplyStrategy S Q) (r : Resize Q) (pod base : Pod Q) (a : S × Answer (Pod Q))
      → IsSingle (answered api strat r pod base a)
  answered-IsSingle strat r pod base (s, granted stored) =
      apply_sidecar_resize-IsSingle r stored base r.regular s
  answered-IsSingle strat r pod base (s, denied is_invalid) = refl
  answered-IsSingle strat r pod base (s, denied is_not_found) = refl
  answered-IsSingle strat r pod base (s, denied is_too_many_requests) = refl
  answered-IsSingle strat r pod base (s, denied (otherwise x)) = refl

  await_verdict-IsSingle :
      (strat : UnapplyStrategy S Q) (pod : Pod Q) (s : S) → IsSingle (await_verdict api strat pod s)
  unfolding await_verdict
  await_verdict-IsSingle strat pod s =
      let verdict = resize_pending_reason pod in
      if_both {A = S × Touched Q} IsSingle
        (same_text verdict reason_infeasible || same_text verdict reason_error) _ _
        (hooked-IsSingle pod (strat.on_unsatisfiable pod verdict s)) refl

  resize_pod_in_place_with-IsSingle :
      (pod : Pod Q) (recs : List (String × ContainerRecommendation Q)) (strat : UnapplyStrategy S Q)
      (s : S)
      → IsSingle (resize_pod_in_place_with api pod recs strat s)
  unfolding resize_pod_in_place_with submit_in_place_resize await_verdict
  resize_pod_in_place_with-IsSingle pod recs strat s =
      let r = resized pod recs in
      if_both IsSingle (is_filled r.regular) _ _ (answered-IsSingle strat r _ pod _) (
        if_both IsSingle (is_filled r.sidecars) _ _ (apply_sidecar_resize-IsSingle r pod pod [] s)
          (await_verdict-IsSingle strat pod s))

  by_change-IsSingle :
      (change : PodChange) (recs : List (String × ContainerRecommendation Q)) (gate : EvictionGate)
      (pod : Pod Q) (s : S)
      → IsSingle (by_change api change recs gate pod s)
  unfolding resize_pod_in_place_no_evict patch_pod_in_place
  by_change-IsSingle limit_change recs gate pod s =
      resize_pod_in_place_with-IsSingle pod recs never_evict s
  by_change-IsSingle no_change recs gate pod s =
      resize_pod_in_place_with-IsSingle pod recs (evict_unapplied api gate) s
  by_change-IsSingle request_change recs gate pod s =
      resize_pod_in_place_with-IsSingle pod recs (evict_unapplied api gate) s

  pub touch-IsSingle :
      (in_place : Bool) (plan : PodPlan Q) (gate : EvictionGate) (pod : Pod Q) (s : S)
      → IsSingle (touch api in_place plan gate pod s)
  unfolding touch
  touch-IsSingle in_place plan gate pod s =
      if_both IsSingle (in_place && is_running pod.phase) _ _
        (by_change-IsSingle plan.change plan.recs gate pod s)
        (if_both IsSingle (stale plan) _ _ (hooked-IsSingle pod (submit_eviction api pod gate s))
          refl)
