-- ===== src/Recommender/Gate.antt =====
-- The outcome of a computation: the age gate, and what makes a recommendation
-- (Recommender/Compute.antt, Recommender/Inputs.antt).
use mathlib.Core.Path.{subst}
use k8s_sustain.Prelude.{
  ◌+◌, ◌<◌, ◌≡◌, ◌≢◌, refl, ◌↔◌, ◌⊎◌, inl, inr, true, false, Option, none, some, List, [], ◌∷◌,
  String, String-discrete, insert, is_filled, All, arith, Option-cases, lookup, lookup-insert_self,
  lookup-insert_ne, ◌∙◌, sym, ap, is_some, All-map,
}
use k8s_sustain.Prelude.Time.{Time, sub}
use k8s_sustain.Units.{Quantities, Floats}
use k8s_sustain.Api.{Container, ContainerRecommendation, ContainerTrace}
use k8s_sustain.Recommender.Inputs.{WorkloadInputs, excuses_age}
use k8s_sustain.Recommender.Compute.{
  too_young, no_data, min_workload_age, Request, is_too_young, compute_container,
  compute_containers, compute,
}
use k8s_sustain.Recommender.Justified.{is_observed, is_some-compute_container}

module _ {F : Type 0} ⦃fl : Floats F⦄ where
  -- An identity is Too young exactly when its first observation is known, it was made less than
  -- ten minutes ago, and no kill excuses it.
  pub is_too_young_iff :
      (since now : Time) (inputs : WorkloadInputs F)
      → (is_too_young since now inputs ≡ true)
        ↔ ((since ≢ 0) × (now < since + min_workload_age) × (excuses_age inputs.oom_kills ≡ false))
  unfolding is_too_young sub
  is_too_young_iff since now inputs = ground arith

filled_insert :
    {A : Type 0} (k : String) (v : A) (m : List (String × A))
    → is_filled (insert String-discrete k v m) ≡ true
unfolding insert
filled_insert k v [] = refl
filled_insert k v ((j, w) ∷ m) = ground arith

abbrev Maps : Type 0 → Type 0 → Type 0
Maps F Q = List (String × ContainerRecommendation Q) × List (String × ContainerTrace F Q)

abbrev pub Distinct : {Q : Type 0} → List (Container Q) → Type 0
Distinct [] = Unit {0}
Distinct (c ∷ cs) = All (λ d. c.name ≢ d.name) cs × Distinct cs

module _ {Q : Type 0} where
  abbrev Absent : List (String × ContainerRecommendation Q) → List (Container Q) → Type 0
  Absent recs = All (λ c. lookup String-discrete c.name recs ≡ none)

  nothing_yet : (cs : List (Container Q)) → Absent [] cs
  unfolding lookup
  nothing_yet [] = tt
  nothing_yet (c ∷ cs) = (refl, nothing_yet cs)

module _ {F Q : Type 0} ⦃fl : Floats F⦄ ⦃qu : Quantities Q⦄ where
  -- The part of a container's result that goes into the map of recommendations.
  abbrev pub rec_of :
      Option (ContainerRecommendation Q × ContainerTrace F Q) → Option (ContainerRecommendation Q)
  rec_of none = none
  rec_of (some (r, tr)) = some r

  -- One turn of the loop over the containers.
  abbrev turn :
      Container Q → Option (ContainerRecommendation Q × ContainerTrace F Q) → Maps F Q → Maps F Q
  turn c none maps = maps
  turn c (some (r, tr)) (recs, traces) =
      (insert String-discrete c.name r recs, insert String-discrete c.name tr traces)

  compute_containers-turn :
      (c : Container Q) (cs : List (Container Q)) (req : Request F Q) (maps : Maps F Q)
      → compute_containers (c ∷ cs) req maps
        ≡ compute_containers cs req (turn c (compute_container c req) maps)
  unfolding compute_containers
  compute_containers-turn c cs req maps = elim (Option-cases (compute_container c req)) [
    | inl e ↦ rw (e, compute_containers)
    | inr (x, e) ↦ rw (e, compute_containers)
  ]

  turn_filled :
      (c : Container Q) (o : Option (ContainerRecommendation Q × ContainerTrace F Q))
      (maps : Maps F Q)
      → (is_filled maps.0 ≡ true) ⊎ (o ≢ none)
      → is_filled (turn c o maps).0 ≡ true
  turn_filled c none maps (inl h) = h
  turn_filled c none maps (inr h) = absurd (h refl)
  turn_filled c (some (r, tr)) (recs, traces) h = filled_insert c.name r recs

  filled_stays :
      (cs : List (Container Q)) (req : Request F Q) (maps : Maps F Q)
      → is_filled maps.0 ≡ true
      → is_filled (compute_containers cs req maps).0 ≡ true
  unfolding compute_containers
  filled_stays [] req maps h = h
  filled_stays (c ∷ cs) req maps h = rw (compute_containers-turn c cs req maps) (
      filled_stays cs req (turn c (compute_container c req) maps)
        (turn_filled c (compute_container c req) maps (inl h)))

  abbrev Unjustified : Request F Q → List (Container Q) → Type 0
  Unjustified req = All (λ c. compute_container c req ≡ none)

  empty_iff :
      (cs : List (Container Q)) (req : Request F Q) (traces : List (String × ContainerTrace F Q))
      → (is_filled (compute_containers cs req ([], traces)).0 ≡ false) ↔ Unjustified req cs
  unfolding compute_containers
  empty_iff [] req traces = (λ _. tt, λ _. refl)
  empty_iff (c ∷ cs) req traces = elim (Option-cases (compute_container c req)) [
    | inl e ↦
        rw (compute_containers-turn c cs req ([], traces), e)
          (λ h. (refl, (empty_iff cs req traces).0 h), λ h. (empty_iff cs req traces).1 h.1)
    | inr ((r, tr), e) ↦
        rw (compute_containers-turn c cs req ([], traces), e)
          (
            λ h. cc (
                filled_stays cs req (turn c (some (r, tr)) ([], traces))
                  (filled_insert c.name r [])),
            λ h. cc (h.0),
          )
  ]

  -- A container whose usage was not measured and whose kills have no floor.
  abbrev pub Unobserved : Request F Q → List (Container Q) → Type 0
  Unobserved req = All (λ c. is_observed c req ≡ false)

  none_unobserved :
      (req : Request F Q) (c : Container Q)
      → compute_container c req ≡ none
      → is_observed c req ≡ false
  none_unobserved req c e = sym (is_some-compute_container c req) ∙ ap is_some e

  unobserved_none :
      (req : Request F Q) (c : Container Q)
      → is_observed c req ≡ false
      → compute_container c req ≡ none
  unobserved_none req c e = elim (Option-cases (compute_container c req)) [
    | inl n ↦ n
    | inr (x, s) ↦ cc (is_some-compute_container c req, e, ap is_some s)
  ]

  Unjustified-Unobserved :
      (req : Request F Q) (cs : List (Container Q)) → Unjustified req cs ↔ Unobserved req cs
  Unjustified-Unobserved req cs =
      (λ h. All-map (none_unobserved req) cs h, λ h. All-map (unobserved_none req) cs h)

  -- A computation is Too young when the age gate says so; otherwise it has no data exactly when no
  -- container has usage that was measured, of either resource, or the floor of a recent kill, and it
  -- is a recommendation in every other case.
  pub compute_outcome :
      (req : Request F Q)
      → let young = is_too_young req.since req.now req.inputs in
        (((compute req).outcome ≡ too_young) ↔ (young ≡ true))
        × (((compute req).outcome ≡ no_data) ↔ ((young ≡ false) × Unobserved req req.containers))
  unfolding compute
  compute_outcome req =
      ground (arith, empty_iff req.containers req [], Unjustified-Unobserved req req.containers)

  lookup-turn_ne :
      (c : Container Q) (o : Option (ContainerRecommendation Q × ContainerTrace F Q))
      (maps : Maps F Q) (n : String)
      → n ≢ c.name
      → lookup String-discrete n (turn c o maps).0 ≡ lookup String-discrete n maps.0
  lookup-turn_ne c none maps n h = refl
  lookup-turn_ne c (some (r, tr)) (recs, traces) n h =
      lookup-insert_ne String-discrete c.name n r recs h

  untouched :
      (cs : List (Container Q)) (req : Request F Q) (maps : Maps F Q) (n : String)
      → All (λ d. n ≢ d.name) cs
      → lookup String-discrete n (compute_containers cs req maps).0
        ≡ lookup String-discrete n maps.0
  unfolding compute_containers
  untouched [] req maps n h = refl
  untouched (c ∷ cs) req maps n h =
      rw (compute_containers-turn c cs req maps)
        (untouched cs req _ n h.1 ∙ lookup-turn_ne c (compute_container c req) maps n h.0)

  turned :
      (c : Container Q) (o : Option (ContainerRecommendation Q × ContainerTrace F Q))
      (maps : Maps F Q)
      → lookup String-discrete c.name maps.0 ≡ none
      → lookup String-discrete c.name (turn c o maps).0 ≡ rec_of o
  turned c none maps h = h
  turned c (some (r, tr)) (recs, traces) h = lookup-insert_self String-discrete c.name r recs

  Absent-turn :
      (c : Container Q) (o : Option (ContainerRecommendation Q × ContainerTrace F Q))
      (maps : Maps F Q) (cs : List (Container Q))
      → All (λ d. c.name ≢ d.name) cs
      → Absent maps.0 cs
      → Absent (turn c o maps).0 cs
  Absent-turn c o maps [] d h = tt
  Absent-turn c o maps (x ∷ xs) d h =
      (lookup-turn_ne c o maps x.name (λ e. d.0 (sym e)) ∙ h.0, Absent-turn c o maps xs d.1 h.1)

  abbrev Served :
      Request F Q → List (String × ContainerRecommendation Q) → List (Container Q) → Type 0
  Served req recs = All (λ c. lookup String-discrete c.name recs ≡ rec_of (compute_container c req))

  recs_from :
      (cs : List (Container Q)) (req : Request F Q) (maps : Maps F Q)
      → Distinct cs
      → Absent maps.0 cs
      → Served req (compute_containers cs req maps).0 cs
  recs_from [] req maps d h = tt
  recs_from (c ∷ cs) req maps d h =
      let o = compute_container c req in
      subst (λ m. Served req m.0 (c ∷ cs)) (sym (compute_containers-turn c cs req maps))
        (
          untouched cs req (turn c o maps) c.name d.0 ∙ turned c o maps h.0,
          recs_from cs req (turn c o maps) d.1 (Absent-turn c o maps cs d.0 h.1),
        )

  is_some-rec_of :
      (o : Option (ContainerRecommendation Q × ContainerTrace F Q)) → is_some (rec_of o) ≡ is_some o
  is_some-rec_of none = refl
  is_some-rec_of (some (r, tr)) = refl

  -- With distinct names, the recommendations have one for a container exactly when its usage was
  -- measured, of either resource, or a recent kill of it has a floor, whatever the other containers
  -- have; and it is the one that is computed for the container.
  pub compute-recs :
      (req : Request F Q)
      → Distinct req.containers
      → All
          (λ c.
            let found = lookup String-discrete c.name (compute req).recs in
            (is_some found ≡ is_observed c req) × (found ≡ rec_of (compute_container c req)))
          req.containers
  unfolding compute
  compute-recs req d =
      All-map
        (λ c e. (
          ap is_some e
              ∙ (is_some-rec_of (compute_container c req) ∙ is_some-compute_container c req),
          e,
        ))
        req.containers (recs_from req.containers req ([], []) d (nothing_yet req.containers))
