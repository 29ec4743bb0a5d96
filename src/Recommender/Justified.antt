-- ===== src/Recommender/Justified.antt =====
-- Which observations a request rests on: the usage that was measured and the OOM floor of a killed
-- container (Recommender/Signals.antt, Recommender/Compute.antt).
use mathlib.Core.Path.{subst}
use k8s_sustain.Prelude.{
  ◌≡◌, refl, ◌⊎◌, Bool, true, false, ◌||◌, ◌&&◌, none, some, List, [], ◌∷◌, ◌++◌, String-discrete,
  lookup, is_some, arith, All,
}
use k8s_sustain.Prelude.Int.{pos}
use k8s_sustain.Units.{Quantities, Floats, FloatOrder, lt}
use k8s_sustain.Api.{ResourceKind, cpu, memory, Container}
use k8s_sustain.Recommender.Inputs.{Oom, usage_values, recent}
use k8s_sustain.Recommender.Signals.{
  Signal, usage, oom_floor, Role, base, adjuster, StageContext, Contribution, Contributed,
  contribute, contributions_of, contributions_to, floor, ooms, in_slot, slot,
}
use k8s_sustain.Recommender.Compute.{
  Request, request_of, is_justified, stage_context, size, compute_container,
}
use k8s_sustain.Recommender.Winner.{request_signals-Covers, Covers}

All-left : {A : Type 0} (P : A → Type 0) (xs ys : List A) → All P (xs ++ ys) → All P xs
All-left P [] ys h = tt
All-left P (x ∷ xs) ys (p, h) = (p, All-left P xs ys h)

All-right : {A : Type 0} (P : A → Type 0) (xs ys : List A) → All P (xs ++ ys) → All P ys
All-right P [] ys h = h
All-right P (x ∷ xs) ys (p, h) = All-right P xs ys h

module _ {F Q : Type 0} ⦃fl : Floats F⦄ ⦃qu : Quantities Q⦄ where
  contributed :
      (P : Contributed F → Type 0) (s : Signal) (r : Role) (sc : StageContext F Q)
      (k : Contribution F)
      → contribute s sc ≡ some k
      → All P (contributions_of sc r (s ∷ []))
      → P (record { signal = s; role = r; contribution = k })
  unfolding contributions_of
  contributed P s r sc k e h =
      (subst
        (λ o. All P (elim o [
          | none ↦ []
          | some ct ↦ record { signal = s; role = r; contribution = ct } ∷ []
        ]))
        e h).0

  -- What the signals contribute to a request.
  abbrev pub requested : ResourceKind → StageContext F Q → List (Contributed F)
  requested res sc = contributions_to sc res (base ∷ adjuster ∷ [])

  -- The slots of the request side hold the usage of the resource and, for memory, the OOM floor.
  usage_signals :
      (P : Contributed F → Type 0) (res : ResourceKind) (sc : StageContext F Q)
      → All P (requested res sc)
      → All P (contributions_of sc base (usage res ∷ []))
  unfolding contributions_to in_slot
  usage_signals P cpu sc h = All-left P (contributions_of sc base (usage cpu ∷ [])) _ h
  usage_signals P memory sc h = All-left P (contributions_of sc base (usage memory ∷ [])) _ h

  floor_signals :
      (P : Contributed F → Type 0) (sc : StageContext F Q)
      → All P (requested memory sc)
      → All P (contributions_of sc adjuster (oom_floor ∷ []))
  unfolding contributions_to in_slot
  floor_signals P sc h =
      All-left P (contributions_of sc adjuster (oom_floor ∷ [])) []
        (All-right P (contributions_of sc base (usage memory ∷ [])) _ h)

  usage_contribution :
      (res : ResourceKind) (sc : StageContext F Q) (v : F)
      → lookup String-discrete sc.container.name (usage_values res sc.inputs) ≡ some v
      → contribute (usage res) sc ≡ some (record { value = v; anchors = true })
  unfolding contribute
  usage_contribution res sc v e = rw (e, contribute) refl

  floor_contribution :
      (sc : StageContext F Q)
      → recent (ooms sc) ≡ true
      → contribute oom_floor sc
        ≡ some (record {
          value = (floor (ooms sc)).0;
          anchors = elim (floor (ooms sc)).1 [ none ↦ false | some a ↦ true ];
        })
  unfolding contribute
  floor_contribution sc e = rw (e, contribute) refl

module _ {F : Type 0} ⦃fl : Floats F⦄ where
  -- A limit that a container was killed at and the reported peak leave an OOM floor.
  abbrev pub has_floor : Oom F → Bool
  has_floor o =
      o.has_peak
      || (lt (fl.of_int (pos 0)) o.limit_bytes
          && lt o.peak_bytes (fl.mul o.limit_bytes (fl.of_milli 1200)))

  anchored : (o : Oom F) → is_some (floor o).1 ≡ has_floor o
  unfolding floor
  anchored o = ground arith

module _ {F Q : Type 0} ⦃fl : Floats F⦄ ⦃qu : Quantities Q⦄ where
  -- What justifies a request: usage that was measured and, for memory, the floor of a recent kill.
  abbrev pub has_signal : ResourceKind → StageContext F Q → Bool
  has_signal cpu sc = is_some (lookup String-discrete sc.container.name sc.inputs.cpu_usage)
  has_signal memory sc =
      is_some (lookup String-discrete sc.container.name sc.inputs.memory_usage)
      || (recent (ooms sc) && has_floor (ooms sc))

  justified_iff :
      (res : ResourceKind) (sc : StageContext F Q)
      → is_justified (requested res sc) ≡ has_signal res sc
  unfolding contributions_to in_slot contributions_of contribute is_justified usage_values slot
      floor
  justified_iff cpu sc = ground arith
  justified_iff memory sc = ground (arith, anchored (ooms sc))

  size-justified :
      (res : ResourceKind) (c : Container Q) (req : Request F Q)
      → (size res c req).1 ≡ has_signal res (stage_context res c req)
  unfolding size
  size-justified res c req = ground (arith, justified_iff res (stage_context res c req))

  -- Whether the usage of either resource was measured for a container, or its kills have a floor.
  abbrev pub is_observed : Container Q → Request F Q → Bool
  is_observed c req =
      has_signal cpu (stage_context cpu c req) || has_signal memory (stage_context memory c req)

  pub is_some-compute_container :
      (c : Container Q) (req : Request F Q) → is_some (compute_container c req) ≡ is_observed c req
  unfolding compute_container
  is_some-compute_container c req =
      ground (arith, size-justified cpu c req, size-justified memory c req)

module _ {F Q : Type 0} ⦃fl : Floats F⦄ ⦃qu : Quantities Q⦄ (ord : FloatOrder F) where
  -- The value a request is sized from is not below the usage that was measured for the container.
  pub request_of-usage :
      (res : ResourceKind) (sc : StageContext F Q) (v : F)
      → lookup String-discrete sc.container.name (usage_values res sc.inputs) ≡ some v
      → lt (request_of (requested res sc)).0 v ≡ false
  request_of-usage res sc v e =
      let r = (request_of (requested res sc)).0 in
      contributed (Covers r) (usage res) base sc _ (usage_contribution res sc v e)
        (usage_signals (Covers r) res sc (request_signals-Covers ord res sc))

module _ {F : Type 0} ⦃fl : Floats F⦄ where
  -- A value is not below the peak of memory, where one was reported, nor below 1.2 times the limit
  -- of a kill, where that is known and exceeds the peak.
  abbrev pub IsAbove : Oom F → F → Type 0
  IsAbove o r =
      let bumped = fl.mul o.limit_bytes (fl.of_milli 1200) in
      ((o.has_peak ≡ false) ⊎ (lt r o.peak_bytes ≡ false))
      × ((lt (fl.of_int (pos 0)) o.limit_bytes ≡ false)
          ⊎ ((lt o.peak_bytes bumped ≡ false) ⊎ (lt r bumped ≡ false)))

  floor_lem : (ord : FloatOrder F) (o : Oom F) (r : F) → lt r (floor o).0 ≡ false → IsAbove o r
  unfolding floor
  floor_lem ord o r h =
      let bumped = fl.mul o.limit_bytes (fl.of_milli 1200) in
      (ground (arith, h, ord.lt_trans r o.peak_bytes bumped), ground (arith, h))

module _ {F Q : Type 0} ⦃fl : Floats F⦄ ⦃qu : Quantities Q⦄ (ord : FloatOrder F) where
  -- For a container that was recently killed, the value that a memory request is sized from is not
  -- below the peak of memory, where one was reported, nor below 1.2 times the limit of the kill,
  -- where that is known and exceeds the peak.
  pub request_of-IsAbove :
      (sc : StageContext F Q)
      → recent (ooms sc) ≡ true
      → IsAbove (ooms sc) (request_of (requested memory sc)).0
  request_of-IsAbove sc e =
      let r = (request_of (requested memory sc)).0 in
      floor_lem ord (ooms sc) r (
        contributed (Covers r) oom_floor adjuster sc _ (floor_contribution sc e)
          (floor_signals (Covers r) sc (request_signals-Covers ord memory sc)))
