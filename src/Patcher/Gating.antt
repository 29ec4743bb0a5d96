-- ===== src/Patcher/Gating.antt =====
-- Which pods a pass asks the cluster to evict (internal/workload/patcher.go): two clusters that
-- answer alike where an eviction is permitted make no difference to the pass.
use k8s_sustain.Prelude.{
  ◌≢◌, ◌≡◌, refl, ap, Bool, true, false, ◌&&◌, ◌||◌, not, List, [], String, is_some, arith,
  Bool-cases, inl, inr, Option-cases, is_filled,
}
use k8s_sustain.Units.{Quantities}
use k8s_sustain.Api.{ContainerRecommendation}
use k8s_sustain.WlrCache.{same_text}
use k8s_sustain.Workload.Tolerance.{Tolerance}
use k8s_sustain.Workload.Plan.{PodChange, no_change, limit_change, request_change, stale}
use k8s_sustain.Patcher.Pods.{
  Pod, is_running, is_terminal, countable, plan_of, resize_pending_reason, reason_infeasible,
  reason_error,
}
use k8s_sustain.Patcher.Resources.{staged_requests, resized}
use k8s_sustain.Patcher.Settled.{plan_for-resized}
use k8s_sustain.Patcher.Ordering.{sort_pods_for_recycle}
use k8s_sustain.Patcher.Cluster.{
  Answer, granted, denied, is_not_found, is_invalid, is_too_many_requests, otherwise, Cluster,
  PassError, Patcher,
}
use k8s_sustain.Patcher.Resizing.{
  EvictionGate, hooked, await_verdict, submit_in_place_resize, never_evict, answered, by_change,
  resize_pod_in_place_no_evict, evicted_by, UnapplyStrategy, is_pinned, submit_eviction,
  evict_unapplied, touch, resize_pod_in_place_with, patch_pod_in_place,
}
use k8s_sustain.Patcher.Changes.{ApplySettings, PodSet, Changes, gate_of, new_changes}
use k8s_sustain.Patcher.Recycling.{recycle, recycle_pod, while_live, pass_over, settle, resulting}

abbrev pub Evict : Type 0 → Type 0 → Type 0
Evict S Q = Pod Q → S → S × Answer (Unit {0})

-- The gate lets the pod's eviction through.
unfoldable pub permits : {Q : Type 0} → EvictionGate → Pod Q → Bool
unfolding is_pinned
permits gate pod = not (is_pinned gate pod) && not (is_some gate.halted)

-- The cluster, but for how it answers evictions.
abbrev pub evicting : {S L Q : Type 0} → Evict S Q → Cluster S L Q → Cluster S L Q
evicting e api = record api { evict = e }

-- The pod's requests differ from what the Recommendation gives it, or from what the kubelet has
-- enacted of them.
abbrev pub is_unsettled :
    {Q : Type 0}
    → ⦃qu : Quantities Q⦄ → List (String × ContainerRecommendation Q)
    → Tolerance Q
    → Pod Q
    → Bool
is_unsettled recs tol pod = stale (plan_of pod recs tol) || staged_requests pod

live : (a b : Bool) → (a || b) ≡ false → (not a && not b) ≡ true
live a b t = ground arith

no_names : {xs : List String} → xs ≡ [] → is_filled xs ≢ true
no_names h t = ground (arith, h, t)

module _ {S L Q : Type 0} ⦃qu : Quantities Q⦄ (api : Cluster S L Q) (e : Evict S Q)
    (gate : EvictionGate) (pod : Pod Q) where
  submit_eviction-agrees :
      (s : S)
      → (permits gate pod ≡ true → e pod s ≡ api.evict pod s)
      → submit_eviction (evicting e api) pod gate s ≡ submit_eviction api pod gate s
  unfolding submit_eviction permits
  submit_eviction-agrees s h = elim (Bool-cases (is_pinned gate pod)) [
    | inl p ↦ rw p refl
    | inr p ↦ elim (Option-cases gate.halted) [
      | inl q ↦ rw (p, q) (ap evicted_by (h (rw (p, q) refl)))
      | inr (w, q) ↦ rw (p, q) refl
    ]
  ]

  await_verdict-agrees :
      (strat strat' : UnapplyStrategy S Q) (s : S)
      → ((verdict : String) (s' : S)
          → strat'.on_unsatisfiable pod verdict s' ≡ strat.on_unsatisfiable pod verdict s')
      → await_verdict (evicting e api) strat' pod s ≡ await_verdict api strat pod s
  unfolding await_verdict
  await_verdict-agrees strat strat' s uns =
      let verdict = resize_pending_reason pod in
      elim (Bool-cases (same_text verdict reason_infeasible || same_text verdict reason_error)) [
        | inl t ↦ rw t (ap (hooked pod) (uns verdict s))
        | inr t ↦ rw t refl
      ]

  -- What differs between two strategies at this pod alone is all that differs in its resize.
  resize_pod_in_place_with-agrees :
      (recs : List (String × ContainerRecommendation Q)) (strat strat' : UnapplyStrategy S Q)
      (s : S)
      → ((verdict : String) (s' : S)
          → strat'.on_unsatisfiable pod verdict s' ≡ strat.on_unsatisfiable pod verdict s')
      → (is_filled (resized pod recs).regular ≡ true
          → (s' : S) → strat'.on_unapplied pod s' ≡ strat.on_unapplied pod s')
      → resize_pod_in_place_with (evicting e api) pod recs strat' s
        ≡ resize_pod_in_place_with api pod recs strat s
  unfolding resize_pod_in_place_with await_verdict submit_in_place_resize
  resize_pod_in_place_with-agrees recs strat strat' s uns una =
      let r = resized pod recs in
      let asked = record pod { containers = r.containers } in
      let s' = (api.resize asked pod s).0 in
      elim (Bool-cases (is_filled r.regular)) [
        | inl t ↦
            let gone = una t s' in
            rw t
              (elim (api.resize asked pod s).1
                as (λ x.
                  answered (evicting e api) strat' r asked pod (s', x)
                  ≡ answered api strat r asked pod (s', x)) [
                    | granted stored ↦ refl
                    | denied is_invalid ↦ ap (hooked pod) gone
                    | denied is_not_found ↦ refl
                    | denied is_too_many_requests ↦ refl
                    | denied (otherwise x) ↦ refl
                  ])
        | inr t ↦ elim (Bool-cases (is_filled r.sidecars)) [
          | inl u ↦ rw (t, u) refl
          | inr u ↦ rw (t, u) (await_verdict-agrees strat strat' s uns)
        ]
      ]

  verdict-agrees :
      (verdict : String) (s : S)
      → (permits gate pod ≡ true → staged_requests pod ≡ true → e pod s ≡ api.evict pod s)
      → (evict_unapplied (evicting e api) gate).on_unsatisfiable pod verdict s
        ≡ (evict_unapplied api gate).on_unsatisfiable pod verdict s
  unfolding evict_unapplied
  verdict-agrees verdict s h = elim (Bool-cases (staged_requests pod)) [
    | inl t ↦ rw t (submit_eviction-agrees s (λ q. h q t))
    | inr t ↦ rw t refl
  ]

  -- What the hypothesis of the two theorems below says of this pod.
  abbrev AgreesAt : List (String × ContainerRecommendation Q) → Tolerance Q → Type 0
  AgreesAt recs tol =
      (s : S)
      → permits gate pod ≡ true
      → is_unsettled recs tol pod ≡ true
      → e pod s ≡ api.evict pod s

  by_change-agrees :
      (change : PodChange) (recs : List (String × ContainerRecommendation Q)) (tol : Tolerance Q)
      (s : S)
      → (plan_of pod recs tol).change ≡ change
      → AgreesAt recs tol
      → by_change (evicting e api) change (plan_of pod recs tol).recs gate pod s
        ≡ by_change api change (plan_of pod recs tol).recs gate pod s
  unfolding patch_pod_in_place resize_pod_in_place_no_evict evict_unapplied
  by_change-agrees limit_change recs tol s c h =
      resize_pod_in_place_with-agrees (plan_of pod recs tol).recs never_evict never_evict s
        (λ v s'. refl) (λ t s'. refl)
  by_change-agrees no_change recs tol s c h =
      resize_pod_in_place_with-agrees (plan_of pod recs tol).recs (evict_unapplied api gate)
        (evict_unapplied (evicting e api) gate) s
        (λ v s'. verdict-agrees v s' (λ q t. h s' q (rw (c, t) refl)))
        (λ t s'. absurd (no_names (plan_for-resized pod recs tol c) t))
  by_change-agrees request_change recs tol s c h =
      resize_pod_in_place_with-agrees (plan_of pod recs tol).recs (evict_unapplied api gate)
        (evict_unapplied (evicting e api) gate) s
        (λ v s'. verdict-agrees v s' (λ q t. h s' q (rw c refl)))
        (λ t s'. submit_eviction-agrees s' (λ q. h s' q (rw c refl)))

  -- A pod's turn asks for an eviction only where the gate lets it through and the pod's requests
  -- differ.
  touch-agrees :
      (in_place : Bool) (recs : List (String × ContainerRecommendation Q)) (tol : Tolerance Q)
      (s : S)
      → AgreesAt recs tol
      → touch (evicting e api) in_place (plan_of pod recs tol) gate pod s
        ≡ touch api in_place (plan_of pod recs tol) gate pod s
  unfolding touch
  touch-agrees in_place recs tol s h = elim (Bool-cases (in_place && is_running pod.phase)) [
    | inl r ↦ rw r (by_change-agrees (plan_of pod recs tol).change recs tol s refl h)
    | inr r ↦ elim (Bool-cases (stale (plan_of pod recs tol))) [
      | inl t ↦ rw (r, t) (ap (hooked pod) (submit_eviction-agrees s (λ q. h s q (rw t refl))))
      | inr t ↦ rw (r, t) refl
    ]
  ]

module _ {S L Q : Type 0} ⦃qu : Quantities Q⦄ (api : Cluster S L Q) (e : Evict S Q) (p : Patcher)
    (set : PodSet L Q) (recs : List (String × ContainerRecommendation Q)) where
  recycle_pod-agrees :
      (tol : Tolerance Q) (gate : EvictionGate) (pod : Pod Q) (ch : Changes)
      (errors : List PassError) (s : S)
      → (countable pod ≡ true → AgreesAt api e gate pod recs tol)
      → recycle_pod (evicting e api) p set recs tol gate pod ch errors s
        ≡ recycle_pod api p set recs tol gate pod ch errors s
  unfolding recycle_pod settle countable
  recycle_pod-agrees tol gate pod ch errors s h =
      elim (Bool-cases (pod.deleting || is_terminal pod.phase)) [
        | inl t ↦ rw t refl
        | inr t ↦ rw t (
            ap (settle api p set recs _ errors) (
              touch-agrees api e gate pod p.in_place recs tol s
                (h (live pod.deleting (is_terminal pod.phase) t))))
      ]

  -- Every eviction that a pass asks for is of a live pod that the gate lets through, so neither
  -- pinned by its annotation nor held back by a crash-looping pod that runs the Recommendation
  -- already, and whose requests differ from the Recommendation, or from what the kubelet enacted:
  -- answered differently for all other pods, evictions make no difference to the pass.
  pub recycle-permitted :
      (settings : ApplySettings Q) (s : S)
      → ((pod : Pod Q) (s' : S)
          → countable pod ≡ true
          → permits (gate_of (sort_pods_for_recycle set.pods) recs settings) pod ≡ true
          → is_unsettled recs settings.tolerance pod ≡ true
          → e pod s' ≡ api.evict pod s')
      → recycle (evicting e api) p set recs settings s ≡ recycle api p set recs settings s
  unfolding recycle while_live
  recycle-permitted settings s h =
      let pods = sort_pods_for_recycle set.pods in
      let gate = gate_of pods recs settings in
      ap
        (λ take.
          resulting recs settings.tolerance (pass_over (while_live api take) pods new_changes [] s))
        (λ i pod ch errors s'.
          recycle_pod-agrees settings.tolerance gate pod ch errors s' (λ c s''. h pod s'' c) i)
