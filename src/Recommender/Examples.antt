-- ===== src/Recommender/Examples.antt =====
-- One identity, computed step by step: a Deployment's container with usage, a recent OOM kill and
-- an HPA, under a Policy with bounds.
use k8s_sustain.Prelude.{
  ℕ, ◌*◌, ◌≡◌, ◌↔◌, refl, true, false, Option, none, some, List, [], ◌∷◌, String, String-discrete,
  lookup, insert, All, is_some,
}
use k8s_sustain.Prelude.Int.{pos, int64, int32, quot, ◌+ℤ◌, ◌-ℤ◌, ◌*ℤ◌}
use k8s_sustain.Prelude.Time.{sub, minute}
use k8s_sustain.Units.{decimal_si, binary_si, lt}
use k8s_sustain.Units.Model.{Amount, Fixed, amounts, fixed, amounts_order, fixed_order}
use k8s_sustain.Api.{cpu, memory, Container, ResourcesConfigs, ResourceKind-discrete}
use k8s_sustain.Autoscaler.{Info, kind_hpa}
use k8s_sustain.OomWatch.{OomRecord}
use k8s_sustain.Recommender.Resources.{with_headroom, clamp, of}
use k8s_sustain.Recommender.Inputs.{
  WorkloadInputs, Oom, recent, oom_of, usage_values, excuses_age, zero_oom,
}
use k8s_sustain.Recommender.Signals.{
  ooms, base, adjuster, StageContext, Contributed, contributions_to, contribute,
}
use k8s_sustain.Recommender.Coordination.{coordinate}
use k8s_sustain.Recommender.Limits.{limit_chain, strategy_of, strategy_limit, recommendation}
use k8s_sustain.Recommender.Compute.{
  too_young, no_data, Request, size, size_from, stage_context, compute, is_too_young, request_of,
  compute_container,
}
use k8s_sustain.Recommender.Live.{with_live_ooms}
use k8s_sustain.Recommender.Bounds
use k8s_sustain.Recommender.LimitLaws
use k8s_sustain.Recommender.OomLaws
use k8s_sustain.Recommender.Gate
use k8s_sustain.Recommender.Justified
use k8s_sustain.Recommender.Justified.{requested, IsAbove, is_observed}

abbrev mebi : ℕ
mebi = 1_048_576

abbrev memory_amount : ℕ → Amount
memory_amount n = (n * mebi * 1_000_000_000, binary_si)

abbrev app : Container Amount
app = record {
  name = "app";
  resources = record {
    requests = (memory, memory_amount 100) ∷ [];
    limits = (memory, memory_amount 200) ∷ [];
  };
  restarts_always = false;
}

abbrev policy : ResourcesConfigs Fixed Amount
policy = record {
  cpu_config = record {
    window = "";
    requests = record {
      headroom = none;
      keep_request = false;
      max_allowed = none;
      min_allowed = none;
      percentile = none;
    };
    limits = record {
      equals_to_request = false;
      keep_limit = false;
      keep_limit_request_ratio = false;
      no_limit = true;
      requests_limits_ratio = none;
    };
    downsize_threshold = none;
  };
  memory_config = record {
    window = "96h";
    requests = record {
      headroom = some (pos 10);
      keep_request = false;
      max_allowed = some (memory_amount 250);
      min_allowed = some (memory_amount 64);
      percentile = none;
    };
    limits = record {
      equals_to_request = false;
      keep_limit = false;
      keep_limit_request_ratio = false;
      no_limit = false;
      requests_limits_ratio = none;
    };
    downsize_threshold = none;
  };
}

-- Killed at 200Mi, with a use of 100Mi and a quarter of a core.
abbrev killed : Oom Fixed
killed = record zero_oom { kills = 1_000_000; limit_bytes = 200 * mebi * 1_000_000 }

abbrev inputs : WorkloadInputs Fixed
inputs = record {
  cpu_usage = ("app", 250_000) ∷ [];
  memory_usage = ("app", 100 * mebi * 1_000_000) ∷ [];
  oom_kills = ("app", killed) ∷ [];
}

abbrev hpa : Info
hpa = record {
  kind = kind_hpa;
  namespace = "shop";
  name = "app";
  min_replicas = pos 2;
  max_replicas = pos 10;
  current_replicas = pos 4;
  configured_targets = (cpu, pos 80) ∷ [];
  has_unknown_trigger = false;
}

abbrev request : Request Fixed Amount
request = record {
  containers = app ∷ [];
  resources = policy;
  coordination = record { enabled = true; replica_budget_anchor = none };
  auto_info = hpa;
  inputs = inputs;
  since = 60 * minute;
  now = 100 * minute;
}

program : Unit {0}
unfolding lookup insert String-discrete ResourceKind-discrete int64 int32 quot ◌+ℤ◌ ◌-ℤ◌ ◌*ℤ◌ sub
    with_headroom clamp of recent oom_of usage_values excuses_age contributions_to contribute
    coordinate limit_chain recommendation size compute is_too_young request_of compute_container
program = tt

abbrev memory_signals : List (Contributed Fixed)
memory_signals = contributions_to (stage_context memory app request) memory (base ∷ adjuster ∷ [])

-- 1.2 * 200Mi beats the use; with a headroom of 10% it is 264Mi, which the maximum caps.
memory_request : (size_from memory app request memory_signals).request ≡ memory_amount 250
unfolding program
memory_request = refl

size-Respects_example :
    Bounds.Respects amounts_order
      (some (memory_amount 64))
      (some (memory_amount 250))
      (size_from memory app request memory_signals).request
unfolding program
size-Respects_example =
    Bounds.size-Respects amounts_order memory app request
      (size_from memory app request memory_signals) refl

abbrev memory_context : StageContext Fixed Amount
memory_context = stage_context memory app request

request_of-usage_example :
    lt (request_of (requested memory memory_context)).0 (100 * mebi * 1_000_000) ≡ false
unfolding lookup String-discrete usage_values
request_of-usage_example =
    Justified.request_of-usage fixed_order memory memory_context (100 * mebi * 1_000_000) refl

request_of-IsAbove_example :
    IsAbove (ooms memory_context) (request_of (requested memory memory_context)).0
unfolding recent oom_of lookup String-discrete
request_of-IsAbove_example = Justified.request_of-IsAbove fixed_order memory_context refl

-- The container's own limit of 200Mi is below the request of 250Mi, so the guard raises it.
limit_chain-Guarded_example :
    LimitLaws.Guarded amounts_order
      (memory_amount 250)
      (some (memory_amount 200))
      (limit_chain memory memory_context (memory_amount 250)).0.value
unfolding program strategy_of strategy_limit
limit_chain-Guarded_example =
    LimitLaws.limit_chain-Guarded amounts_order memory memory_context (memory_amount 250)

abbrev cpu_context : StageContext Fixed Amount
cpu_context = stage_context cpu app request

no_limit_lem_example :
    recommendation (limit_chain cpu cpu_context (250_000_000, decimal_si)).0 ≡ (none, true)
unfolding program strategy_of
no_limit_lem_example =
    LimitLaws.no_limit_lem amounts_order cpu cpu_context (250_000_000, decimal_si) refl

compute_outcome_example :
    let young = is_too_young request.since request.now request.inputs in
    (((compute request).outcome ≡ too_young) ↔ (young ≡ true))
    × (((compute request).outcome ≡ no_data)
        ↔ ((young ≡ false) × Gate.Unobserved request request.containers))
compute_outcome_example = Gate.compute_outcome request

compute-recs_example :
    All
      (λ c.
        let found = lookup String-discrete c.name (compute request).recs in
        (is_some found ≡ is_observed c request)
        × (found ≡ Gate.rec_of (compute_container c request)))
      request.containers
compute-recs_example = Gate.compute-recs request (tt, tt)

-- The watcher saw the container killed at 300Mi, five minutes before now.
abbrev seen : OomRecord
seen = record {
  container = "app";
  policy_name = "default";
  observed_at = 95 * minute;
  terminated_at = 94 * minute;
  restart_count = 3;
  pod_name = "app-1";
  pod_uid = "u1";
  oom_limit_bytes = 300 * mebi;
}

abbrev live : List (String × Option OomRecord)
live = ("app", some seen) ∷ []

with_live_ooms_lem_example :
    let out = with_live_ooms inputs live (100 * minute) in
    All
      (λ e.
        oom_of out.oom_kills e.0
        ≡ OomLaws.merged_kill e.1 (100 * minute) (oom_of inputs.oom_kills e.0))
      live
    × ((q : String) → OomLaws.Absent q live → oom_of out.oom_kills q ≡ oom_of inputs.oom_kills q)
    × (out.cpu_usage ≡ inputs.cpu_usage)
    × (out.memory_usage ≡ inputs.memory_usage)
with_live_ooms_lem_example = OomLaws.with_live_ooms_lem inputs live (100 * minute) (tt, tt)
