-- ===== src/Recommender/Coordination.antt =====
-- internal/recommender/coordination.go: the request shaped for the autoscaler of the workload.
use k8s_sustain.Prelude.{
  ℕ, Bool, true, false, ◌||◌, not, Option, none, some, List, [], ◌∷◌, ◌++◌, String, lookup,
  if◌then◌else◌,
}
use k8s_sustain.Prelude.Int.{ℤ, pos, ◌-ℤ◌, leb_ℤ, max_ℤ, min_ℤ, int32}
use k8s_sustain.Units.{decimal_si, binary_si, Quantities, Floats, max_f, min_f, same}
use k8s_sustain.Api.{
  ResourceKind, cpu, memory, ResourceKind-discrete, RequestsConfig, AutoscalerCoordination, Fact,
  factor, amount, TraceStage,
}
use k8s_sustain.Autoscaler.{Info, Kind, kind_none}
use k8s_sustain.Recommender.Resources.{clamp}

abbrev overhead_safety_margin_pct : ℤ
overhead_safety_margin_pct = pos 110

abbrev overhead_target_min : ℤ
overhead_target_min = pos 1

abbrev overhead_target_max : ℤ
overhead_target_max = pos 99

-- `info.ConfiguredTargets[res]`, 0 when it has none
abbrev target_of : Info → ResourceKind → ℤ
target_of info res = elim (lookup ResourceKind-discrete res info.configured_targets) [
  | none ↦ pos 0
  | some t ↦ t
]

abbrev is_none : Kind → Bool
is_none kind_none = true
is_none _ = false

pub record Coordinated (F Q : Type 0) : Type 0 where
  pub overhead : F
  -- none unless the replica correction ran
  pub replica : Option F
  pub scaled : Q
  pub value : Q

module _ {F : Type 0} ⦃fl : Floats F⦄ where
  abbrev replica_factor_min : F
  replica_factor_min = fl.of_milli 500

  abbrev replica_factor_max : F
  replica_factor_max = fl.of_milli 2000

  -- `round(min + anchor * (max - min))`, within [min, max]
  target_replicas : F → ℤ → ℤ → ℤ
  target_replicas anchor min_r max_r =
      let a = min_f (max_f anchor (fl.of_int (pos 0))) (fl.of_int (pos 1)) in
      let span = fl.mul a (fl.of_int (int32 (max_r -ℤ min_r))) in
      let target = int32 (fl.to_int (fl.round (fl.add (fl.of_int min_r) span))) in
      min_ℤ (max_ℤ target min_r) max_r

module _ {F Q : Type 0} ⦃fl : Floats F⦄ ⦃qu : Quantities Q⦄ where
  unfoldable pub apply_overhead : Q → ℤ → Q × F
  apply_overhead qty target_pct =
      if leb_ℤ target_pct (pos 0)
      then (qty, fl.of_int (pos 1))
      else let target =
          fl.of_int (min_ℤ (max_ℤ target_pct overhead_target_min) overhead_target_max) in
        let margin = fl.of_int overhead_safety_margin_pct in
        let scale =
          λ (n : ℕ). fl.to_int (fl.ceil (fl.div (fl.mul (fl.of_int (pos n)) margin) target)) in
        let scaled : Q = elim (qu.format qty) [
          | binary_si ↦ qu.new_quantity (scale (qu.value qty)) (qu.format qty)
          | decimal_si ↦ qu.new_milli_quantity (scale (qu.milli_value qty)) (qu.format qty)
        ] in
        (scaled, fl.div margin target)

  unfoldable pub apply_replica_correction : Q → F → ℤ → ℤ → ℤ → Q × F
  unfolding target_replicas
  apply_replica_correction qty anchor current min_r max_r =
      let target = target_replicas anchor min_r max_r in
      if leb_ℤ max_r min_r || leb_ℤ current (pos 0)
      then (qty, fl.of_int (pos 1))
      else if leb_ℤ target (pos 0)
      then (qty, fl.of_int (pos 1))
      else let ratio = fl.div (fl.of_int current) (fl.of_int target) in
        let factor = min_f (max_f ratio replica_factor_min) replica_factor_max in
        let scaled = fl.mul (fl.of_int (pos (qu.milli_value qty))) factor in
        (qu.new_milli_quantity (fl.to_int (fl.ceil scaled)) (qu.format qty), factor)

  -- The replica correction of a CPU request under a Policy with an anchor.
  correct : ResourceKind → Option F → Info → Q → Q × Option F
  unfolding apply_replica_correction
  correct cpu (some anchor) info qty =
      let (scaled, replica) =
        apply_replica_correction qty anchor info.current_replicas info.min_replicas
          info.max_replicas in
      (scaled, some replica)
  correct cpu none info qty = (qty, none)
  correct memory anchor info qty = (qty, none)

  -- None when coordination is off or no autoscaler targets the workload.
  unfoldable pub coordinate :
      Q
      → ResourceKind
      → AutoscalerCoordination F
      → Info
      → RequestsConfig Q
      → Option (Coordinated F Q)
  unfolding apply_overhead correct
  coordinate clamped res cfg info req =
      if not cfg.enabled || is_none info.kind
      then none
      else let (raised, overhead) = apply_overhead clamped (target_of info res) in
        let (scaled, replica) = correct res cfg.replica_budget_anchor info raised in
        some (record {
          overhead = overhead;
          replica = replica;
          scaled = scaled;
          value = clamp scaled req.min_allowed req.max_allowed;
        })

  abbrev factor_fact : Option F → List (String × Fact F Q)
  factor_fact none = []
  factor_fact (some f) = ("replicaFactor", factor f) ∷ []

  -- The trace stage of a coordinated request.
  unfoldable pub coordination_stage : Coordinated F Q → TraceStage F Q
  coordination_stage c = record {
    stage = "coordination";
    value = some c.value;
    removed = false;
    facts =
        (("overheadFactor", factor c.overhead) ∷ [])
        ++ (factor_fact c.replica
            ++ (if same c.scaled c.value then [] else ("scaled", amount c.scaled) ∷ []));
  }
