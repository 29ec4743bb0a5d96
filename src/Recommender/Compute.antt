-- ===== src/Recommender/Compute.antt =====
-- internal/recommender/compute.go: the recommendation of one identity, from its request.
use k8s_sustain.Prelude.{
  ℕ, suc, ◌*◌, Bool, true, false, ◌&&◌, ◌||◌, not, Option, none, some, List, [], ◌∷◌, ◌++◌, String,
  String-discrete, insert, any, is_filled, if◌then◌else◌,
}
use k8s_sustain.Prelude.Int.{pos, leb_ℤ}
use k8s_sustain.Prelude.Time.{Time, is_zero, sub, minute}
use k8s_sustain.Units.{Quantities, Floats, lt, same}
use k8s_sustain.Api.{
  ResourceKind, cpu, memory, Container, ResourcesConfigs, AutoscalerCoordination,
  ContainerRecommendation, TraceStage, ResourceTrace, ContainerTrace,
}
use k8s_sustain.Autoscaler.{Info}
use k8s_sustain.Recommender.Resources.{config, with_headroom, clamp}
use k8s_sustain.Recommender.Inputs.{WorkloadInputs, excuses_age}
use k8s_sustain.Recommender.Signals.{
  Role, base, adjuster, StageContext, Contributed, contributions_to, stages_of,
}
use k8s_sustain.Recommender.Coordination.{Coordinated, coordinate, coordination_stage}
use k8s_sustain.Recommender.Limits.{Limit, recommendation, limit_chain}

pub data Outcome : Type 0 where
  recommended too_young no_data : Outcome

abbrev pub min_workload_age : ℕ
min_workload_age = 10 * minute

-- `fetch` of the source, which the computation does not read, is left out.
pub record Request (F Q : Type 0) : Type 0 where
  pub containers : List (Container Q)
  pub resources : ResourcesConfigs F Q
  pub coordination : AutoscalerCoordination F
  pub auto_info : Info
  pub inputs : WorkloadInputs F
  pub since : Time
  pub now : Time

pub record Sizing (F Q : Type 0) : Type 0 where
  pub request : Q
  pub limit : Limit Q
  pub trace : ResourceTrace F Q

abbrev pub is_base : Role → Bool
is_base base = true
is_base _ = false

abbrev pub is_unset : Option ℕ → Bool
is_unset none = true
is_unset (some i) = false

module _ {F : Type 0} ⦃fl : Floats F⦄ where
  -- Usage excuses no identity's age; the OOM kills may.
  unfoldable pub is_too_young : Time → Time → WorkloadInputs F → Bool
  unfolding excuses_age
  is_too_young since now inputs =
      if is_zero since || leb_ℤ (pos min_workload_age) (sub now since)
      then false
      else not (excuses_age inputs.oom_kills)

  -- The loop of `requestOf`: the value so far and the index of the one that set it.
  unfoldable pub request_from : ℕ → List (Contributed F) → F × Option ℕ → F × Option ℕ
  request_from i [] acc = acc
  request_from i (ct ∷ cts) (value, winner) = request_from (suc i) cts (
      if lt value ct.value || (is_base ct.role && is_unset winner)
      then (ct.value, some i)
      else (value, winner))

  unfoldable pub request_of : List (Contributed F) → F × Option ℕ
  unfolding request_from
  request_of cts = request_from 0 cts (fl.of_int (pos 0), none)

  unfoldable pub is_justified : List (Contributed F) → Bool
  is_justified = any (λ ct. ct.anchors)

module _ {F Q : Type 0} ⦃fl : Floats F⦄ ⦃qu : Quantities Q⦄ where
  abbrev pub quantity_stage : String → Q → TraceStage F Q
  quantity_stage name q = record { stage = name; value = some q; removed = false; facts = [] }

  abbrev pub stage_context : ResourceKind → Container Q → Request F Q → StageContext F Q
  stage_context res c req = record {
    inputs = req.inputs;
    config = config res req.resources;
    container = c;
    now = req.now;
    request = none;
  }

  -- The final request: the coordinated one where coordination ran.
  abbrev pub final_request : Q → Option (Coordinated F Q) → Q
  final_request clamped none = clamped
  final_request clamped (some co) = co.value

  -- Whether an operator bound, on either side of coordination, set the request.
  is_bounded : Q → Q → Option (Coordinated F Q) → Bool
  is_bounded headroom clamped none = not (same clamped headroom)
  is_bounded headroom clamped (some co) =
      not (same clamped headroom) || not (same co.value co.scaled)

  abbrev coordination_stages : Option (Coordinated F Q) → List (TraceStage F Q)
  coordination_stages none = []
  coordination_stages (some co) = coordination_stage co ∷ []

  -- The chain of a justified request that the Policy does not keep.
  unfoldable pub size_from :
      ResourceKind → Container Q → Request F Q → List (Contributed F) → Sizing F Q
  unfolding request_of is_bounded
  size_from res c req contributions =
      let cfg = config res req.resources in
      let sc = stage_context res c req in
      let (value, winner) = request_of contributions in
      let headroom = with_headroom res value cfg.requests.headroom in
      let clamped = clamp headroom cfg.requests.min_allowed cfg.requests.max_allowed in
      let co = coordinate clamped res req.coordination req.auto_info cfg.requests in
      let winner' = if is_bounded headroom clamped co then none else winner in
      let request = final_request clamped co in
      let (l, limit_trace) = limit_chain res (record sc { request = some request }) request in
      record {
        request = request;
        limit = l;
        trace = record {
          request =
              stages_of contributions sc winner'
              ++ (quantity_stage "headroom" headroom
                  ∷ (quantity_stage "clamp" clamped ∷ coordination_stages co));
          limit = limit_trace;
        };
      }

  -- The sizing, if any, and whether a signal justified a request.
  unfoldable pub size : ResourceKind → Container Q → Request F Q → Option (Sizing F Q) × Bool
  unfolding size_from is_justified
  size res c req =
      let contributions = contributions_to (stage_context res c req) res (base ∷ adjuster ∷ []) in
      let justified = is_justified contributions in
      if not justified || (config res req.resources).requests.keep_request
      then (none, justified)
      else (some (size_from res c req contributions), justified)

  -- One resource's part of a recommendation: its request, its limit and whether to strip it.
  abbrev sizing_parts : Option (Sizing F Q) → Option Q × (Option Q × Bool)
  sizing_parts none = (none, (none, false))
  sizing_parts (some s) = (some s.request, recommendation s.limit)

  abbrev sizing_trace : Option (Sizing F Q) → Option (ResourceTrace F Q)
  sizing_trace none = none
  sizing_trace (some s) = some s.trace

  unfoldable pub compute_container :
      Container Q → Request F Q → Option (ContainerRecommendation Q × ContainerTrace F Q)
  unfolding recommendation
  compute_container c req =
      let (cpu_sizing, cpu_ok) = size cpu c req in
      let (mem_sizing, mem_ok) = size memory c req in
      let (cpu_request, (cpu_limit, remove_cpu)) = sizing_parts cpu_sizing in
      let (memory_request, (memory_limit, remove_memory)) = sizing_parts mem_sizing in
      if not cpu_ok && not mem_ok
      then none
      else some (
        record {
          cpu_request = cpu_request;
          memory_request = memory_request;
          cpu_limit = cpu_limit;
          memory_limit = memory_limit;
          remove_cpu_limit = remove_cpu;
          remove_memory_limit = remove_memory;
        },
        record { cpu_trace = sizing_trace cpu_sizing; memory_trace = sizing_trace mem_sizing },
      )

pub record Result (F Q : Type 0) : Type 0 where
  pub outcome : Outcome
  pub recs : List (String × ContainerRecommendation Q)
  pub traces : List (String × ContainerTrace F Q)

module _ {F Q : Type 0} ⦃fl : Floats F⦄ ⦃qu : Quantities Q⦄ where
  -- The loop over the containers: the two maps, written under each container's name.
  unfoldable pub compute_containers :
      List (Container Q)
      → Request F Q
      → List (String × ContainerRecommendation Q) × List (String × ContainerTrace F Q)
      → List (String × ContainerRecommendation Q) × List (String × ContainerTrace F Q)
  unfolding String-discrete
  compute_containers [] req acc = acc
  compute_containers (c ∷ cs) req (recs, traces) =
      compute_containers cs req (elim (compute_container c req) [
        | none ↦ (recs, traces)
        | some (rec, tr) ↦
            (insert String-discrete c.name rec recs, insert String-discrete c.name tr traces)
      ])

  unfoldable pub compute : Request F Q → Result F Q
  unfolding compute_containers is_too_young
  compute req =
      let (recs, traces) = compute_containers req.containers req ([], []) in
      record {
        outcome =
            if is_too_young req.since req.now req.inputs
            then too_young
            else if is_filled recs
            then recommended
            else no_data;
        recs = recs;
        traces = traces;
      }
