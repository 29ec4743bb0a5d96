-- ===== src/Workload/Examples.antt =====
-- A container of a running pod, under a Recommendation that lowers its memory and strips its CPU
-- limit.
use k8s_sustain.Prelude.{
  ℕ, ◌+◌, ◌*◌, ◌/◌, ◌<◌, ◌≤◌, ◌≡◌, ◌↔◌, refl, true, false, ◌||◌, none, some, [], ◌∷◌, lookup, max,
  arith, insert,
}
use k8s_sustain.Prelude.Int.{pos}
use k8s_sustain.Units.{decimal_si, binary_si}
use k8s_sustain.Units.Model.{Amount, amounts, amounts_order, amounts_units}
use k8s_sustain.Api.{
  cpu, memory, ResourceKind-discrete, ResourceRequirements, ContainerRecommendation,
}
use k8s_sustain.Workload.Inject.{apply_to}
use k8s_sustain.Workload.InjectLaws.{limit_one, request_for, limit_for, removes_for}
use k8s_sustain.Workload.Sizes
use k8s_sustain.Workload.Sizes.{size_of, wanted, larger, Covers}
use k8s_sustain.Workload.Tolerance.{Tolerance, clamp_decrease}
use k8s_sustain.Workload.Plan.{container_change, is_request_change}
use k8s_sustain.Workload.Drift
use k8s_sustain.Workload.Drift.{drifts}

abbrev mebi : ℕ → Amount
mebi n = (n * 1_048_576 * 1_000_000_000, binary_si)

abbrev current : ResourceRequirements Amount
current = record {
  requests = (cpu, (200_000_000, decimal_si)) ∷ (memory, mebi 200) ∷ [];
  limits = (cpu, (500_000_000, decimal_si)) ∷ (memory, mebi 100) ∷ [];
}

abbrev rec : ContainerRecommendation Amount
rec = record {
  cpu_request = none;
  memory_request = some (mebi 150);
  cpu_limit = none;
  memory_limit = some (mebi 120);
  remove_cpu_limit = true;
  remove_memory_limit = false;
}

-- The limit is raised to the recommended request.
raised : lookup ResourceKind-discrete memory (apply_to current rec).0.limits ≡ some (mebi 150)
unfolding apply_to insert lookup k8s_sustain.Prelude.delete
raised = refl

apply_to-sizes_example :
    let out = (apply_to current rec).0 in
    let req = lookup ResourceKind-discrete memory out.requests in
    let limit = lookup ResourceKind-discrete memory out.limits in
    let own = lookup ResourceKind-discrete memory current.limits in
    (size_of amounts_order amounts_units req
      ≡ wanted amounts_order amounts_units (request_for rec memory) (
          size_of amounts_order amounts_units
            (lookup ResourceKind-discrete memory current.requests)))
    × (size_of amounts_order amounts_units limit
        ≡ larger amounts_order amounts_units
            (limit_one own (limit_for rec memory) (removes_for rec memory))
            req)
    × Covers amounts_order amounts_units limit req
apply_to-sizes_example = Sizes.apply_to-sizes amounts_order amounts_units memory current rec

abbrev tolerance : Tolerance Amount
tolerance = record {
  cpu_percent = pos 5;
  cpu_floor = (10_000_000, decimal_si);
  mem_percent = pos 5;
  mem_floor = mebi 15;
}

container_change-drifts_example :
    is_request_change (container_change current (clamp_decrease current rec tolerance))
    ≡ (drifts tolerance current rec cpu || drifts tolerance current rec memory)
container_change-drifts_example =
    Drift.container_change-drifts amounts_order amounts_units tolerance current rec
