-- ===== src/Recommender/Inputs.antt =====
-- internal/recommender/inputs.go, and the values of the signals: usage percentiles
-- (signal_usage.go) and OOM kills (signal_oom.go). The map from a signal's name to its values has
-- one entry for each signal, so it is a record; a signal without an entry has its empty map.
use k8s_sustain.Prelude.{
  Bool, true, false, ◌||◌, Option, none, some, List, [], ◌∷◌, String, String-discrete, lookup,
  insert, any, is_filled, not, if◌then◌else◌,
}
use k8s_sustain.Prelude.Int.{pos}
use k8s_sustain.Prelude.Time.{Time, zero_time, is_zero}
use k8s_sustain.Units.{Floats, lt, max_f}
use k8s_sustain.Api.{ResourceKind, cpu, memory}

-- A container's OOM kills.
pub record Oom (F : Type 0) : Type 0 where
  pub kills : F
  pub peak_bytes : F
  pub has_peak : Bool
  pub limit_bytes : F
  pub live_at : Time
  pub kills_in_step : F

abbrev pub UsageValues : Type 0 → Type 0
UsageValues F = List (String × F)

abbrev pub OomValues : Type 0 → Type 0
OomValues F = List (String × Oom F)

pub record WorkloadInputs (F : Type 0) : Type 0 where
  pub cpu_usage : UsageValues F
  pub memory_usage : UsageValues F
  pub oom_kills : OomValues F

-- The three rules of the OOM floor's query, and the kill rule of its history query.
pub data OomMetric : Type 0 where
  workload_oom_24h container_oom_kills container_peak_memory_24h container_oom_limit_24h : OomMetric
  other_metric : OomMetric

pub record ShardSample (F : Type 0) : Type 0 where
  pub container : String
  pub metric : OomMetric
  pub sample : F

module _ {F : Type 0} where
  unfoldable pub usage_values : ResourceKind → WorkloadInputs F → UsageValues F
  usage_values cpu inputs = inputs.cpu_usage
  usage_values memory inputs = inputs.memory_usage

  -- The last sample of a container stays.
  unfoldable pub collect_usage : List (ShardSample F) → UsageValues F → UsageValues F
  unfolding String-discrete
  collect_usage [] values = values
  collect_usage (s ∷ samples) values =
      collect_usage samples (insert String-discrete s.container s.sample values)

  unfoldable pub resolved : WorkloadInputs F → Bool
  resolved inputs = is_filled inputs.cpu_usage || is_filled inputs.memory_usage

module _ {F : Type 0} ⦃fl : Floats F⦄ where
  abbrev pub zero_oom : Oom F
  zero_oom = record {
    kills = fl.of_int (pos 0);
    peak_bytes = fl.of_int (pos 0);
    has_peak = false;
    limit_bytes = fl.of_int (pos 0);
    live_at = zero_time;
    kills_in_step = fl.of_int (pos 0);
  }

  -- `ooms[name]`, the zero value when the container has no entry
  unfoldable pub oom_of : OomValues F → String → Oom F
  unfolding String-discrete
  oom_of ooms name = elim (lookup String-discrete name ooms) [ none ↦ zero_oom | some o ↦ o ]

  unfoldable pub recent : Oom F → Bool
  recent o = lt (fl.of_int (pos 0)) o.kills || not (is_zero o.live_at)

  unfoldable pub excuses_age : OomValues F → Bool
  unfolding recent
  excuses_age v = any (λ e. recent e.1) v

  -- One sample's update of the container's entry; an unknown metric is skipped.
  unfoldable pub update_oom : OomMetric → F → Oom F → Option (Oom F)
  update_oom workload_oom_24h v o = some (record o { kills = fl.add o.kills v })
  update_oom container_oom_kills v o = some (record o { kills_in_step = fl.add o.kills_in_step v })
  update_oom container_peak_memory_24h v o = some (
      if not o.has_peak || lt o.peak_bytes v
      then record o { peak_bytes = v; has_peak = true }
      else o)
  update_oom container_oom_limit_24h v o = some (record o { limit_bytes = max_f o.limit_bytes v })
  update_oom other_metric v o = none

  unfoldable pub collect_oom : List (ShardSample F) → OomValues F → OomValues F
  unfolding String-discrete oom_of update_oom
  collect_oom [] ooms = ooms
  collect_oom (s ∷ samples) ooms =
      collect_oom samples (elim (update_oom s.metric s.sample (oom_of ooms s.container)) [
        | none ↦ ooms
        | some o ↦ insert String-discrete s.container o ooms
      ])
