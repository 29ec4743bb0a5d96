-- ===== src/Patcher/Resources.antt =====
-- internal/workload/patcher.go: the resources that a pod runs with, and those that a resize gives
-- its containers.
use k8s_sustain.Prelude.{
  ℕ, zero, suc, Bool, true, false, ◌&&◌, ◌||◌, not, Option, none, some, List, [], ◌∷◌, ◌++◌, String,
  String-discrete, insert, lookup, any, map, if◌then◌else◌,
}
use k8s_sustain.Units.{Quantities}
use k8s_sustain.Api.{ResourceRequirements, Container, ContainerRecommendation}
use k8s_sustain.Workload.Inject.{ContainerWrite, inject, requests_equal}
use k8s_sustain.Patcher.Pods.{ContainerStatus, Pod}

pub record Resize (Q : Type 0) : Type 0 where
  pub containers : List (Container Q)
  pub init_containers : List (Container Q)
  pub regular : List String
  pub sidecars : List String

module _ {Q : Type 0} where
  unfoldable pub is_restartable_init_container : Container Q → Bool
  is_restartable_init_container c = c.restarts_always

  -- `cs[i].Resources = resources`; no index is out of range.
  unfoldable pub set_resources :
      ℕ → ResourceRequirements Q → List (Container Q) → List (Container Q)
  set_resources i resources [] = []
  set_resources zero resources (c ∷ cs) = record c { resources = resources } ∷ cs
  set_resources (suc i) resources (c ∷ cs) = c ∷ set_resources i resources cs

  unfoldable pub is_sidecar_at : ℕ → List (Container Q) → Bool
  unfolding is_restartable_init_container
  is_sidecar_at i [] = false
  is_sidecar_at zero (c ∷ cs) = is_restartable_init_container c
  is_sidecar_at (suc i) (c ∷ cs) = is_sidecar_at i cs

  -- One write's turn.
  unfoldable pub add_write : ContainerWrite Q → Resize Q → Resize Q
  unfolding set_resources is_sidecar_at
  add_write w r =
      if not w.init
      then record r {
        containers = set_resources w.index w.resources r.containers;
        regular = r.regular ++ w.name ∷ [];
      }
      else if is_sidecar_at w.index r.init_containers
      then record r {
        init_containers = set_resources w.index w.resources r.init_containers;
        sidecars = r.sidecars ++ w.name ∷ [];
      }
      else r

  unfoldable pub add_writes : List (ContainerWrite Q) → Resize Q → Resize Q
  unfolding add_write
  add_writes [] r = r
  add_writes (w ∷ ws) r = add_writes ws (add_write w r)

  -- The resources that the statuses report, of which the last of a name stays.
  unfoldable pub enacted_in :
      List (ContainerStatus Q)
      → List (String × ResourceRequirements Q)
      → List (String × ResourceRequirements Q)
  unfolding String-discrete
  enacted_in [] out = out
  enacted_in (s ∷ statuses) out =
      enacted_in statuses
        (elim s.resources [ none ↦ out | some r ↦ insert String-discrete s.name r out ])

  unfoldable pub enacted_resources : Pod Q → List (String × ResourceRequirements Q)
  unfolding enacted_in
  enacted_resources pod = enacted_in (pod.container_statuses ++ pod.init_container_statuses) []

  abbrev reported : Container Q → Option (ResourceRequirements Q) → Container Q
  reported c none = c
  reported c (some r) = record c { resources = r }

  unfoldable pub with_enacted :
      List (String × ResourceRequirements Q) → List (Container Q) → List (Container Q)
  unfolding String-discrete
  with_enacted enacted cs = map (λ c. reported c (lookup String-discrete c.name enacted)) cs

  unfoldable pub running_containers : Pod Q → List (Container Q) × List (Container Q)
  unfolding enacted_resources with_enacted
  running_containers pod =
      let enacted = enacted_resources pod in
      (with_enacted enacted pod.containers, with_enacted enacted pod.init_containers)

module _ {Q : Type 0} ⦃qu : Quantities Q⦄ where
  unfoldable pub resized : Pod Q → List (String × ContainerRecommendation Q) → Resize Q
  unfolding inject add_writes
  resized pod recs =
      add_writes (inject pod.containers pod.init_containers false recs).writes (record {
        containers = pod.containers;
        init_containers = pod.init_containers;
        regular = [];
        sidecars = [];
      })

  abbrev pub requests_differ : Container Q → Option (ResourceRequirements Q) → Bool
  requests_differ c none = true
  requests_differ c (some r) = not (requests_equal c.resources r)

  unfoldable pub staged_requests : Pod Q → Bool
  unfolding enacted_resources requests_equal is_restartable_init_container
  staged_requests pod =
      let enacted = enacted_resources pod in
      let staged : Container Q → Bool =
        λ c. requests_differ c (lookup String-discrete c.name enacted) in
      any staged pod.containers
      || any (λ c. is_restartable_init_container c && staged c) pod.init_containers
