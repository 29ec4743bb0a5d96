-- ===== src/Workload/Plan.antt =====
-- internal/workload/match.go: what applying a Recommendation means for one pod, and whether the
-- pod counts stale.
use k8s_sustain.Prelude.{
  Bool, true, false, not, Option, none, some, List, [], ◌∷◌, ◌++◌, String, String-discrete, lookup,
  if◌then◌else◌,
}
use k8s_sustain.Units.{Quantities}
use k8s_sustain.Api.{ResourceRequirements, Container, ContainerRecommendation}
use k8s_sustain.Workload.Inject.{apply_to, requests_equal}
use k8s_sustain.Workload.Tolerance.{Tolerance, clamp_recs}

-- In the order of the source: the larger of two changes is the pod's.
pub data PodChange : Type 0 where
  no_change limit_change request_change : PodChange

abbrev pub larger_change : PodChange → PodChange → PodChange
larger_change no_change c = c
larger_change limit_change no_change = limit_change
larger_change limit_change c = c
larger_change request_change c = request_change

abbrev pub is_request_change : PodChange → Bool
is_request_change no_change = false
is_request_change limit_change = false
is_request_change request_change = true

pub record PodPlan (Q : Type 0) : Type 0 where
  pub recs : List (String × ContainerRecommendation Q)
  pub change : PodChange

abbrev pub stale : {Q : Type 0} → PodPlan Q → Bool
stale pl = is_request_change pl.change

module _ {Q : Type 0} ⦃qu : Quantities Q⦄ where
  unfoldable pub container_change : ResourceRequirements Q → ContainerRecommendation Q → PodChange
  unfolding apply_to
  container_change current rec =
      let (out, (_, changed)) = apply_to current rec in
      if not changed
      then no_change
      else if not (requests_equal current out)
      then request_change
      else limit_change

  abbrev pub change_found : ResourceRequirements Q → Option (ContainerRecommendation Q) → PodChange
  change_found current none = no_change
  change_found current (some rec) = container_change current rec

  -- The loop over containers of which `counts` lets some through.
  unfoldable pub change_of :
      (Container Q → Bool)
      → List (String × ContainerRecommendation Q)
      → List (Container Q)
      → PodChange
      → PodChange
  unfolding container_change String-discrete
  change_of counts recs [] change = change
  change_of counts recs (c ∷ cs) change = change_of counts recs cs (
      if counts c
      then larger_change change (change_found c.resources (lookup String-discrete c.name recs))
      else change)

  unfoldable pub plan_for :
      List (Container Q)
      → List (Container Q)
      → List (String × ContainerRecommendation Q)
      → Tolerance Q
      → PodPlan Q
  unfolding change_of clamp_recs
  plan_for containers init_containers recs tol =
      let clamped = clamp_recs (containers ++ init_containers) recs tol in
      record {
        recs = clamped;
        change =
            change_of (λ c. c.restarts_always) clamped init_containers
              (change_of (λ _. true) clamped containers no_change);
      }
