-- ===== src/Patcher/Recycling.antt =====
-- internal/workload/patcher.go: the pass over the pods of a member, which resizes and evicts one
-- after the other, and the pass of a kind whose pods are resized in place or left alone.
use k8s_sustain.Prelude.{
  ◌||◌, not, Option, none, some, List, [], ◌∷◌, ◌++◌, String, is_filled, if◌then◌else◌,
}
use k8s_sustain.Units.{Quantities}
use k8s_sustain.Api.{ContainerRecommendation}
use k8s_sustain.Workload.Tolerance.{Tolerance}
use k8s_sustain.Workload.Plan.{plan_for}
use k8s_sustain.Patcher.Pods.{Pod, is_running, is_terminal, plan_of}
use k8s_sustain.Patcher.Ordering.{sort_pods_for_recycle}
use k8s_sustain.Patcher.Cluster.{
  Cluster, Failure, context_done, is_crash_loop, PassError, after_evicting, of_pass, Patcher,
}
use k8s_sustain.Patcher.Resizing.{Touched, EvictionGate, touch, resize_pod_in_place_no_evict}
use k8s_sustain.Patcher.Waiting.{wait_for_replacement}
use k8s_sustain.Patcher.Changes.{
  ApplySettings, PodSet, Changes, new_changes, PassResult, observe_suppressed, note_resized,
  note_evicted, result_of, updated_pod_crash_looping, gate_of, error_of_pod,
}

-- Where a pod's pass ends: the member has more pods to take, or the pass halts.
pub data Turn : Type 0 where
  goes_on halts : Turn

-- The pods as far as a pass has come, what it did, its errors, and whether it goes on.
pub record Progress (Q : Type 0) : Type 0 where
  pub pod : Pod Q
  pub changes : Changes
  pub errors : List PassError
  pub turn : Turn

-- The same of a whole pass.
pub record Passed (Q : Type 0) : Type 0 where
  pub pods : List (Pod Q)
  pub changes : Changes
  pub errors : List PassError

-- A pass's loop: a pod's turn, and the rest unless it halts.
unfoldable pub pass_over :
    {S Q : Type 0}
    → (Pod Q → Changes → List PassError → S → S × Progress Q)
    → List (Pod Q)
    → Changes
    → List PassError
    → S
    → S × Passed Q
pass_over take [] ch errors s = (s, record { pods = []; changes = ch; errors = errors })
pass_over take (pod ∷ pods) ch errors s =
    let (s', pr) = take pod ch errors s in
    elim pr.turn [
      | halts ↦ (s', record { pods = pr.pod ∷ pods; changes = pr.changes; errors = pr.errors })
      | goes_on ↦
          let (s'', rest) = pass_over take pods pr.changes pr.errors s' in
          (s'', record rest { pods = pr.pod ∷ rest.pods })
    ]

abbrev pub resulting :
    {S Q : Type 0}
    → ⦃qu : Quantities Q⦄ → List (String × ContainerRecommendation Q)
    → Tolerance Q
    → S × Passed Q
    → S × (PassResult × List PassError)
resulting recs tol (s, passed) = (s, result_of passed.pods recs tol passed.changes passed.errors)

module _ {S L Q : Type 0} ⦃qu : Quantities Q⦄ (api : Cluster S L Q) where
  -- What follows the wait.
  abbrev pub waited : Touched Q → Changes → List PassError → S × Option Failure → S × Progress Q
  waited t ch errors (s, none) =
      (s, record { pod = t.pod; changes = ch; errors = errors; turn = goes_on })
  waited t ch errors (s, some e) = (
    s,
    record {
      pod = t.pod;
      changes = ch;
      errors = errors ++ after_evicting t.pod.name e ∷ [];
      turn = halts;
    },
  )

  -- What a pass notes of a pod that it touched.
  unfoldable pub settle :
      Patcher
      → PodSet L Q
      → List (String × ContainerRecommendation Q)
      → Changes
      → List PassError
      → S × Touched Q
      → S × Progress Q
  unfolding note_resized note_evicted wait_for_replacement
  settle p set recs ch errors (s, t) =
      let errors' = errors ++ error_of_pod t.pod.name t.error in
      let ch' = if is_filled t.written then note_resized t.pod t.written ch else ch in
      if◌then◌else◌ {A = S × Progress Q} (is_crash_loop t.error)
        (s, record { pod = t.pod; changes = ch; errors = errors'; turn = halts })
        (if◌then◌else◌ {A = S × Progress Q} (not t.evicted)
          (s, record { pod = t.pod; changes = ch'; errors = errors'; turn = goes_on })
          (waited t (note_evicted t.pod recs ch') errors'
            (wait_for_replacement api.view p set.namespace set.selector t.pod.name t.pod.uid s)))

  -- A pod's turn, once the context is known to live.
  unfoldable pub recycle_pod :
      Patcher
      → PodSet L Q
      → List (String × ContainerRecommendation Q)
      → Tolerance Q
      → EvictionGate
      → Pod Q
      → Changes
      → List PassError
      → S
      → S × Progress Q
  unfolding observe_suppressed touch settle plan_for
  recycle_pod p set recs tol gate pod ch errors s =
      if◌then◌else◌ {A = S × Progress Q} (pod.deleting || is_terminal pod.phase)
        (s, record { pod = pod; changes = ch; errors = errors; turn = goes_on })
        (let plan = plan_of pod recs tol in
          let seen = record ch { suppressed = observe_suppressed recs plan.recs ch.suppressed } in
          settle p set recs seen errors (touch api p.in_place plan gate pod s))

  -- The context's error ends a pass, and stands for the errors so far.
  unfoldable pub while_live :
      (Pod Q → Changes → List PassError → S → S × Progress Q)
      → Pod Q
      → Changes
      → List PassError
      → S
      → S × Progress Q
  while_live take pod ch errors s =
      let (s', ended) = api.view.context_error s in
      elim ended [
        | none ↦ take pod ch errors s'
        | some e ↦ (
          s',
          record { pod = pod; changes = ch; errors = of_pass (context_done e) ∷ []; turn = halts },
        )
      ]

  unfoldable pub recycle :
      Patcher
      → PodSet L Q
      → List (String × ContainerRecommendation Q)
      → ApplySettings Q
      → S
      → S × (PassResult × List PassError)
  unfolding pass_over while_live recycle_pod result_of updated_pod_crash_looping
      sort_pods_for_recycle new_changes
  recycle p set recs settings s =
      let pods = sort_pods_for_recycle set.pods in
      let gate = gate_of pods recs settings in
      resulting recs settings.tolerance (
        pass_over (while_live (recycle_pod p set recs settings.tolerance gate)) pods new_changes []
          s)

  -- The turn of a pod that is never evicted.
  unfoldable pub resize_pod :
      List (String × ContainerRecommendation Q)
      → Tolerance Q
      → Pod Q
      → Changes
      → List PassError
      → S
      → S × Progress Q
  unfolding observe_suppressed resize_pod_in_place_no_evict note_resized plan_for
  resize_pod recs tol pod ch errors s =
      if◌then◌else◌ {A = S × Progress Q} (pod.deleting || not (is_running pod.phase))
        (s, record { pod = pod; changes = ch; errors = errors; turn = goes_on })
        (let plan = plan_of pod recs tol in
          let seen = record ch { suppressed = observe_suppressed recs plan.recs ch.suppressed } in
          let (s', t) = resize_pod_in_place_no_evict api pod plan.recs s in
          (
            s',
            record {
              pod = t.pod;
              changes = if is_filled t.written then note_resized t.pod t.written seen else seen;
              errors = errors ++ error_of_pod t.pod.name t.error;
              turn = goes_on;
            },
          ))

  unfoldable pub resize_in_place_only :
      Patcher
      → List (Pod Q)
      → List (String × ContainerRecommendation Q)
      → ApplySettings Q
      → S
      → S × (PassResult × List PassError)
  unfolding pass_over while_live resize_pod result_of new_changes
  resize_in_place_only p pods recs settings s =
      if not p.in_place
      then (s, result_of pods recs settings.tolerance new_changes [])
      else resulting recs settings.tolerance
          (pass_over (while_live (resize_pod recs settings.tolerance)) pods new_changes [] s)
