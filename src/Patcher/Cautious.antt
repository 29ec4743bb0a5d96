-- ===== src/Patcher/Cautious.antt =====
-- When a pass goes on after an eviction (internal/workload/patcher.go).
use k8s_sustain.Prelude.{◌≡◌, ◌⊎◌, List, ◌∷◌, String}
use k8s_sustain.Units.{Quantities}
use k8s_sustain.Api.{ContainerRecommendation}
use k8s_sustain.Workload.Tolerance.{Tolerance}
use k8s_sustain.Patcher.Pods.{Pod}
use k8s_sustain.Patcher.Cluster.{Cluster, PassError, Patcher}
use k8s_sustain.Patcher.Resizing.{EvictionGate}
use k8s_sustain.Patcher.WaitLaws.{SawQuiet}
use k8s_sustain.Patcher.Changes.{PodSet, Changes}
use k8s_sustain.Patcher.Recycling.{halts, Progress, Passed, recycle_pod, while_live, pass_over}

module _ {S L Q : Type 0} ⦃qu : Quantities Q⦄ (api : Cluster S L Q) (p : Patcher) (set : PodSet L Q)
    (recs : List (String × ContainerRecommendation Q)) where
  -- A turn halts, or evicts nothing, or ends where the pods were just listed, with the evicted one
  -- gone, none of the others crash-looping, and none pending or running unready.
  abbrev IsCautious : Changes → S × Progress Q → Type 0
  IsCautious ch (s, pr) =
      (pr.turn ≡ halts)
      ⊎ ((pr.changes.evicted ≡ ch.evicted)
          ⊎ SawQuiet api.view p set.namespace set.selector pr.pod.name pr.pod.uid s)

  -- The loop of recycle, from any pod of it on.
  abbrev pub passing :
      Tolerance Q → EvictionGate → List (Pod Q) → Changes → List PassError → S → S × Passed Q
  passing tol gate = pass_over (while_live api (recycle_pod api p set recs tol gate))

  -- What a pass over a pod and others comes to, from what the pod's turn came to: it ends there and
  -- takes no other, or goes on with the others, and then the turn has evicted nothing or the pods were
  -- just listed quiet.
  abbrev pub GoesOn :
      Tolerance Q → EvictionGate → List (Pod Q) → Changes → S × Progress Q → S × Passed Q → Type 0
  GoesOn tol gate pods ch (s, pr) after =
      (after ≡ (s, record { pods = pr.pod ∷ pods; changes = pr.changes; errors = pr.errors }))
      ⊎ (((pr.changes.evicted ≡ ch.evicted)
            ⊎ SawQuiet api.view p set.namespace set.selector pr.pod.name pr.pod.uid s)
          × (let (s', rest) = passing tol gate pods pr.changes pr.errors s in
              after ≡ (s', record rest { pods = pr.pod ∷ rest.pods })))
