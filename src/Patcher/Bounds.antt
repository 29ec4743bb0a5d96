-- ===== src/Patcher/Bounds.antt =====
-- How many pods a pass counts and changes (internal/workload/patcher.go).
use k8s_sustain.WlrCache.{same_text}
use k8s_sustain.Patcher.Cautious.{passing}
use k8s_sustain.Prelude.{
  ◌∙◌, ◌++◌, length-sort_stable, ℕ, suc, ◌+◌, ◌≤◌, ◌≡◌, refl, ap, Bool, true, false, ◌&&◌, ◌||◌,
  not, Option, none, some, List, [], ◌∷◌, String, length, is_filled, arith, if◌then◌else◌, if_both,
  Bool-cases, Option-cases, ◌⊎◌, inl, inr,
}
use k8s_sustain.Units.{Quantities}
use k8s_sustain.Api.{ContainerRecommendation}
use k8s_sustain.Workload.Tolerance.{Tolerance}
use k8s_sustain.Workload.Plan.{stale}
use k8s_sustain.Ledger.{PodCounts}
use k8s_sustain.Patcher.Pods.{Pod, NameSet, countable, is_terminal, is_in, plan_of, count_pods}
use k8s_sustain.Patcher.Ordering.{
  sort_pods_for_recycle, any_owned_by_stateful_set, by_ordinal, by_pod_name,
}
use k8s_sustain.Patcher.Cluster.{Cluster, Failure, PassError, Patcher, is_crash_loop}
use k8s_sustain.Patcher.Resizing.{Touched, EvictionGate}
use k8s_sustain.Patcher.Waiting.{wait_for_replacement}
use k8s_sustain.Patcher.Single.{IsSingle, touch-IsSingle}
use k8s_sustain.Patcher.Changes.{
  ApplySettings, PodSet, Changes, note_resized, note_evicted, result_of, gate_of, new_changes,
}
use k8s_sustain.Patcher.Recycling.{
  Turn, goes_on, halts, Progress, Passed, waited, settle, recycle_pod, while_live, pass_over,
  recycle,
}

-- A pod's turn in the count.
abbrev counted : Bool → Bool → PodCounts → PodCounts
counted counts taken pc =
    if not counts
    then pc
    else record { total = pc.total + 1; stale = if taken then pc.stale + 1 else pc.stale }

counted_once :
    (counts taken : Bool) (pc : PodCounts)
    → pc.stale ≤ pc.total
    → let pc' = counted counts taken pc in (pc'.stale ≤ pc'.total) × (pc'.total ≤ pc.total + 1)
counted_once false taken pc h = (h, omega arith)
counted_once true true pc h = (omega (arith, h), omega arith)
counted_once true false pc h = (omega (arith, h), omega arith)

Turn-cases : (t : Turn) → (t ≡ halts) ⊎ (t ≡ goes_on)
Turn-cases halts = inl refl
Turn-cases goes_on = inr refl

single :
    (written : List String) (evicted : Bool)
    → evicted ≡ true
    → (is_filled written && evicted) ≡ false
    → is_filled written ≡ false
single written evicted e h = ground (arith, e, h)

-- How often a name stands in a list.
abbrev pub times : String → List String → ℕ
times n [] = 0
times n (x ∷ xs) = (if same_text x n then 1 else 0) + times n xs

times-append : (n : String) (xs ys : List String) → times n (xs ++ ys) ≡ times n xs + times n ys
times-append n [] ys = omega arith
times-append n (x ∷ xs) ys = omega (arith, times-append n xs ys)

-- How often a pass resized and evicted a pod of a name.
abbrev pub changed_pods : String → Changes → ℕ
changed_pods n ch = times n ch.resized + times n ch.evicted

abbrev pub names : {Q : Type 0} → List (Pod Q) → List String
names [] = []
names (pod ∷ pods) = pod.name ∷ names pods

abbrev pub number_of : {A : Type 0} → (A → Bool) → List A → ℕ
number_of p [] = 0
number_of p (x ∷ xs) = (if p x then 1 else 0) + number_of p xs

module _ {Q : Type 0} ⦃qu : Quantities Q⦄ where
  length-sort_pods_for_recycle :
      (pods : List (Pod Q)) → length (sort_pods_for_recycle pods) ≡ length pods
  unfolding sort_pods_for_recycle
  length-sort_pods_for_recycle pods =
      if_both (λ (x : List (Pod Q)). length x ≡ length pods) (any_owned_by_stateful_set pods) _ _
        (length-sort_stable by_ordinal pods) (length-sort_stable by_pod_name pods)

  count_pods-le :
      (pods : List (Pod Q)) (recs : List (String × ContainerRecommendation Q)) (tol : Tolerance Q)
      (fixed : NameSet) (pc : PodCounts)
      → pc.stale ≤ pc.total
      → let counts = count_pods pods recs tol fixed pc in
        (counts.stale ≤ counts.total) × (counts.total ≤ pc.total + length pods)
  unfolding count_pods
  count_pods-le [] recs tol fixed pc h = (h, omega arith)
  count_pods-le (pod ∷ pods) recs tol fixed pc h =
      let taken = not (is_in pod.uid fixed) && stale (plan_of pod recs tol) in
      let (le, more) = counted_once (countable pod) taken pc h in
      let (le', more') = count_pods-le pods recs tol fixed (counted (countable pod) taken pc) le in
      (le', omega (arith, more, more'))

  number_of-count_pods :
      (pods : List (Pod Q)) (recs : List (String × ContainerRecommendation Q)) (tol : Tolerance Q)
      (fixed : NameSet) (pc : PodCounts)
      → (count_pods pods recs tol fixed pc).total ≡ pc.total + number_of countable pods
  unfolding count_pods
  number_of-count_pods [] recs tol fixed pc = omega arith
  number_of-count_pods (pod ∷ pods) recs tol fixed pc =
      let taken = not (is_in pod.uid fixed) && stale (plan_of pod recs tol) in
      ground (arith, number_of-count_pods pods recs tol fixed (counted (countable pod) taken pc))

  counted-all :
      (pods : List (Pod Q)) (recs : List (String × ContainerRecommendation Q)) (tol : Tolerance Q)
      (ch : Changes) (errors : List PassError)
      → let pass = (result_of pods recs tol ch errors).0 in
        (pass.counted ≡ false) ⊎ (pass.pods.total ≡ number_of countable pods)
  unfolding result_of
  counted-all pods recs tol ch errors = elim (Bool-cases (is_filled errors)) [
    | inl e ↦ inl (rw e refl)
    | inr e ↦ inr (
        rw e (
          omega
            (arith, number_of-count_pods pods recs tol ch.fixed (record { total = 0; stale = 0 }))))
  ]

  counted-le :
      (pods : List (Pod Q)) (recs : List (String × ContainerRecommendation Q)) (tol : Tolerance Q)
      (ch : Changes) (errors : List PassError)
      → let pass = (result_of pods recs tol ch errors).0 in
        (pass.pods.stale ≤ pass.pods.total) × (pass.pods.total ≤ 0 + length pods)
  unfolding result_of
  counted-le pods recs tol ch errors =
      if_both (λ (pc : PodCounts). (pc.stale ≤ pc.total) × (pc.total ≤ 0 + length pods))
        (is_filled errors) _ _ (omega arith, omega arith)
        (count_pods-le pods recs tol ch.fixed (record { total = 0; stale = 0 }) (omega arith))

module _ {Q : Type 0} ⦃qu : Quantities Q⦄ (n : String) where
  -- A turn adds the pod's name to the pods changed, at most once, and no other.
  abbrev AddsOne : {S : Type 0} → Changes → S × Progress Q → Type 0
  AddsOne ch (s, pr) = changed_pods n pr.changes ≤ changed_pods n ch + times n (pr.pod.name ∷ [])

  note_resized-changed :
      (b : Bool) (pod : Pod Q) (written : List String) (ch : Changes)
      → changed_pods n (if b then note_resized pod written ch else ch)
        ≤ changed_pods n ch + times n (pod.name ∷ [])
  unfolding note_resized
  note_resized-changed true pod written ch =
      omega (arith, times-append n ch.resized (pod.name ∷ []))
  note_resized-changed false pod written ch = omega arith

  note_evicted-changed :
      (pod : Pod Q) (recs : List (String × ContainerRecommendation Q)) (ch : Changes)
      → changed_pods n (note_evicted pod recs ch) ≤ changed_pods n ch + times n (pod.name ∷ [])
  unfolding note_evicted
  note_evicted-changed pod recs ch = omega (arith, times-append n ch.evicted (pod.name ∷ []))

  module _ {S L : Type 0} (api : Cluster S L Q) (p : Patcher) (set : PodSet L Q)
      (recs : List (String × ContainerRecommendation Q)) where
    waited-AddsOne :
        (t : Touched Q) (ch ch' : Changes) (errors : List PassError) (r : S × Option Failure)
        → changed_pods n ch' ≤ changed_pods n ch + times n (t.pod.name ∷ [])
        → AddsOne ch (waited api t ch' errors r)
    waited-AddsOne t ch ch' errors (s, none) h = h
    waited-AddsOne t ch ch' errors (s, some e) h = h

    settle-AddsOne :
        (ch : Changes) (errors : List PassError) (r : S × Touched Q)
        → IsSingle r
        → AddsOne ch (settle api p set recs ch errors r)
    unfolding settle
    settle-AddsOne ch errors (s, t) h =
        let noted = note_resized-changed (is_filled t.written) t.pod t.written ch in
        elim (Bool-cases t.evicted) [
          | inr e ↦ rw e (
              if_both {A = S × Progress Q} (AddsOne ch) (is_crash_loop t.error) _ _ (omega arith)
                noted)
          | inl e ↦
              let bare = single t.written t.evicted e h in
              rw (e, bare)
                (if_both {A = S × Progress Q} (AddsOne ch) (is_crash_loop t.error) _ _ (omega arith)
                  (waited-AddsOne t ch (note_evicted t.pod recs ch) _
                    (wait_for_replacement api.view p set.namespace set.selector t.pod.name t.pod.uid
                      s)
                    (note_evicted-changed t.pod recs ch)))
        ]

    recycle_pod-AddsOne :
        (tol : Tolerance Q) (gate : EvictionGate) (pod : Pod Q) (ch : Changes)
        (errors : List PassError) (s : S)
        → AddsOne ch (recycle_pod api p set recs tol gate pod ch errors s)
    unfolding recycle_pod
    recycle_pod-AddsOne tol gate pod ch errors s =
        if_both {A = S × Progress Q} (AddsOne ch) (pod.deleting || is_terminal pod.phase) _ _
          (omega arith)
          (settle-AddsOne _ errors _
            (touch-IsSingle api p.in_place (plan_of pod recs tol) gate pod s))

    while_live-AddsOne :
        (take : Pod Q → Changes → List PassError → S → S × Progress Q)
        → ((pod : Pod Q) (ch : Changes) (errors : List PassError) (s : S)
            → AddsOne ch (take pod ch errors s))
        → (pod : Pod Q) (ch : Changes) (errors : List PassError) (s : S)
        → AddsOne ch (while_live api take pod ch errors s)
    unfolding while_live
    while_live-AddsOne take h pod ch errors s =
        let s' = (api.view.context_error s).0 in
        elim (Option-cases (api.view.context_error s).1) [
          | inl e ↦ rw (e, while_live) (h pod ch errors s')
          | inr (x, e) ↦ rw (e, while_live) (omega arith)
        ]

  -- A pass leaves as many pods as it took, and changes each of them at most once.
  abbrev PassesOver : {S : Type 0} → List (Pod Q) → Changes → S × Passed Q → Type 0
  PassesOver pods ch (s, passed) =
      (length passed.pods ≡ length pods)
      × (changed_pods n passed.changes ≤ changed_pods n ch + times n (names passed.pods))

  pass_over-PassesOver :
      {S : Type 0} (take : Pod Q → Changes → List PassError → S → S × Progress Q)
      → ((pod : Pod Q) (ch : Changes) (errors : List PassError) (s : S)
          → AddsOne ch (take pod ch errors s))
      → (pods : List (Pod Q)) (ch : Changes) (errors : List PassError) (s : S)
      → PassesOver pods ch (pass_over take pods ch errors s)
  unfolding pass_over
  pass_over-PassesOver take h [] ch errors s = (refl, omega arith)
  pass_over-PassesOver take h (pod ∷ pods) ch errors s =
      let (s', pr) = take pod ch errors s in
      let one = h pod ch errors s in
      let (same_length, more) = pass_over-PassesOver take h pods pr.changes pr.errors s' in
      elim (Turn-cases pr.turn) [
        | inl e ↦ rw (e, pass_over) (refl, omega (arith, one))
        | inr e ↦ rw (e, pass_over) (ap suc same_length, omega (arith, one, more))
      ]

module _ {S L Q : Type 0} ⦃qu : Quantities Q⦄ (api : Cluster S L Q) (p : Patcher) (set : PodSet L Q)
    (recs : List (String × ContainerRecommendation Q)) where
  -- A pass leaves as many pods as it is given. Where it counts them, it counts all that are
  -- countable as it leaves them, and no more stale; and of each name, it has resized and evicted
  -- together no more pods than it leaves of the name, so that it changes each pod at most once.
  pub recycle-Bounded :
      (settings : ApplySettings Q) (s : S) (n : String)
      → let pass = (recycle api p set recs settings s).1.0 in
        let left =
          (passing api p set recs settings.tolerance
            (gate_of (sort_pods_for_recycle set.pods) recs settings)
            (sort_pods_for_recycle set.pods)
            new_changes
            []
            s).1.pods in
        (length left ≡ length set.pods)
        × (pass.pods.stale ≤ pass.pods.total)
        × ((pass.counted ≡ false) ⊎ (pass.pods.total ≡ number_of countable left))
        × (times n pass.resized + times n pass.evicted ≤ times n (names left))
  unfolding recycle result_of new_changes
  recycle-Bounded settings s n =
      let pods = sort_pods_for_recycle set.pods in
      let gate = gate_of pods recs settings in
      let tol = settings.tolerance in
      let take = while_live api (recycle_pod api p set recs tol gate) in
      let passed = (pass_over take pods new_changes [] s).1 in
      let (kept, changed) =
        pass_over-PassesOver n take
          (while_live-AddsOne n api p set recs (recycle_pod api p set recs tol gate)
            (recycle_pod-AddsOne n api p set recs tol gate))
          pods new_changes [] s in
      let (le, total) = counted-le passed.pods recs tol passed.changes passed.errors in
      (
        kept ∙ length-sort_pods_for_recycle set.pods,
        le,
        counted-all passed.pods recs tol passed.changes passed.errors,
        omega (arith, changed),
      )
