-- ===== src/Patcher/Settled.antt =====
-- A pod whose plan changes nothing is resized nowhere (internal/workload: planFor and resized).
use k8s_sustain.Prelude.{
  ℕ, suc, ◌≡◌, refl, sym, ◌∙◌, Bool, true, false, Option, none, some, List, [], ◌∷◌, String,
  String-discrete, lookup, All, All-append, arith, Bool-cases, inl, inr, if_both, ◌≢◌,
  if◌then◌else◌,
}
use mathlib.Core.Path.{subst}
use k8s_sustain.Units.{Quantities}
use k8s_sustain.Api.{ResourceRequirements, Container, ContainerRecommendation}
use k8s_sustain.Workload.Inject.{
  ContainerWrite, Injection, apply_to, add_container, add_containers, inject,
}
use k8s_sustain.Workload.Tolerance.{Tolerance}
use k8s_sustain.Workload.Plan.{
  PodChange, no_change, limit_change, request_change, larger_change, container_change, change_of,
  change_found, plan_for,
}
use k8s_sustain.Patcher.Pods.{Pod, plan_of}
use k8s_sustain.Patcher.Resources.{Resize, is_sidecar_at, add_write, add_writes, resized}

larger_change-no_change : (c d : PodChange) → larger_change c d ≡ no_change → c ≡ no_change
larger_change-no_change no_change d h = refl
larger_change-no_change limit_change no_change h = cc
larger_change-no_change limit_change limit_change h = cc
larger_change-no_change limit_change request_change h = cc
larger_change-no_change request_change d h = cc

kept_no_change :
    (b : Bool) (c d : PodChange) → (if b then larger_change c d else c) ≡ no_change → c ≡ no_change
kept_no_change true c d h = larger_change-no_change c d h
kept_no_change false c d h = h

-- Writes of init containers alone.
abbrev AllInit : {Q : Type 0} → List (ContainerWrite Q) → Type 0
AllInit ws = All (λ w. w.init ≡ true) ws

module _ {Q : Type 0} ⦃qu : Quantities Q⦄ where
  change_of-no_change :
      (counts : Container Q → Bool) (recs : List (String × ContainerRecommendation Q))
      (cs : List (Container Q)) (so_far : PodChange)
      → change_of counts recs cs so_far ≡ no_change
      → so_far ≡ no_change
  unfolding change_of
  change_of-no_change counts recs [] so_far h = h
  change_of-no_change counts recs (c ∷ cs) so_far h =
      kept_no_change (counts c) so_far
        (change_found c.resources (lookup String-discrete c.name recs))
        (change_of-no_change counts recs cs _ h)

  changes :
      (rec : ContainerRecommendation Q) (current : ResourceRequirements Q)
      → (apply_to current rec).1.1 ≡ true
      → container_change current rec ≢ no_change
  unfolding container_change
  changes rec current e h = ground (arith, e, h)

  -- A container that does not change is not written.
  add_container-unchanged :
      (init : Bool) (i : ℕ) (c : Container Q) (found : Option (ContainerRecommendation Q))
      (inj : Injection Q)
      → change_found c.resources found ≡ no_change
      → (add_container init i c found inj).writes ≡ inj.writes
  unfolding add_container container_change
  add_container-unchanged init i c none inj h = refl
  add_container-unchanged init i c (some rec) inj h =
      elim (Bool-cases (apply_to c.resources rec).1.1) [
        | inl e ↦ absurd (changes rec c.resources e h)
        | inr e ↦ rw e refl
      ]

  add_containers-unchanged :
      (init : Bool) (recs : List (String × ContainerRecommendation Q)) (i : ℕ)
      (cs : List (Container Q)) (inj : Injection Q)
      → change_of (λ _. true) recs cs no_change ≡ no_change
      → (add_containers init recs i cs inj).writes ≡ inj.writes
  unfolding add_containers change_of
  add_containers-unchanged init recs i [] inj h = refl
  add_containers-unchanged init recs i (c ∷ cs) inj h =
      let found = lookup String-discrete c.name recs in
      let head = change_of-no_change (λ _. true) recs cs (change_found c.resources found) h in
      add_containers-unchanged init recs (suc i) cs (add_container init i c found inj)
        (subst (λ d. change_of (λ _. true) recs cs d ≡ no_change) head h)
      ∙ add_container-unchanged init i c found inj head

  add_container-AllInit :
      (i : ℕ) (c : Container Q) (found : Option (ContainerRecommendation Q)) (inj : Injection Q)
      → AllInit inj.writes
      → AllInit (add_container true i c found inj).writes
  unfolding add_container
  add_container-AllInit i c none inj h = h
  add_container-AllInit i c (some rec) inj h =
      if_both AllInit (apply_to c.resources rec).1.1 _ inj.writes
        (All-append (λ w. w.init ≡ true) inj.writes _ h (refl, tt)) h

  add_containers-AllInit :
      (recs : List (String × ContainerRecommendation Q)) (i : ℕ) (cs : List (Container Q))
      (inj : Injection Q)
      → AllInit inj.writes
      → AllInit (add_containers true recs i cs inj).writes
  unfolding add_containers
  add_containers-AllInit recs i [] inj h = h
  add_containers-AllInit recs i (c ∷ cs) inj h =
      add_containers-AllInit recs (suc i) cs _
        (add_container-AllInit i c (lookup String-discrete c.name recs) inj h)

  add_writes-regular :
      (ws : List (ContainerWrite Q)) (r : Resize Q)
      → AllInit ws
      → (add_writes ws r).regular ≡ r.regular
  unfolding add_writes add_write
  add_writes-regular [] r h = refl
  add_writes-regular (w ∷ ws) r (e, h) =
      add_writes-regular ws (add_write w r) h
      ∙ rw e (
          if_both (λ x. x.regular ≡ r.regular) (is_sidecar_at w.index r.init_containers) _ r refl
            refl)

  -- No regular container of a pod is resized when its plan changes nothing.
  pub plan_for-resized :
      (pod : Pod Q) (recs : List (String × ContainerRecommendation Q)) (tol : Tolerance Q)
      → (plan_of pod recs tol).change ≡ no_change
      → (resized pod (plan_of pod recs tol).recs).regular ≡ []
  unfolding plan_for resized inject
  plan_for-resized pod recs tol h =
      let clamped = (plan_of pod recs tol).recs in
      let regular = change_of-no_change (λ c. c.restarts_always) clamped pod.init_containers _ h in
      let none_yet : Injection Q = record { recs = []; writes = [] } in
      let none_written = add_containers-unchanged false clamped 0 pod.containers none_yet regular in
      add_writes-regular _ _ (
        add_containers-AllInit clamped 0 pod.init_containers _
          (subst AllInit (sym none_written) tt))
