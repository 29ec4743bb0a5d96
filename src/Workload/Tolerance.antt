-- ===== src/Workload/Tolerance.antt =====
-- internal/workload/match.go: the decreases that a Policy's downsize threshold withholds.
use k8s_sustain.Prelude.{
  ℕ, ◌*◌, ◌/◌, Bool, false, ◌&&◌, not, Option, none, some, List, [], ◌∷◌, String, String-discrete,
  lookup, insert, if◌then◌else◌,
}
use k8s_sustain.Prelude.Int.{ℤ, pos, ◌-ℤ◌, ◌*ℤ◌, ltb_ℤ, leb_ℤ, int64}
use k8s_sustain.Units.{Quantities, decimal_si, binary_si}
use k8s_sustain.Api.{
  cpu, memory, ResourceRequirements, Container, ContainerRecommendation, DownsizeThreshold,
  ResourcesConfigs,
}
use k8s_sustain.Workload.Inject.{value_in}

abbrev pub default_downsize_percent : ℕ
default_downsize_percent = 5

pub record Tolerance (Q : Type 0) : Type 0 where
  pub cpu_percent : ℤ
  pub cpu_floor : Q
  pub mem_percent : ℤ
  pub mem_floor : Q

abbrev or_else : {A : Type 0} → A → Option A → A
or_else a none = a
or_else a (some b) = b

module _ {Q : Type 0} where
  unfoldable pub downsize_threshold : Option (DownsizeThreshold Q) → Q → ℤ × Q
  downsize_threshold none floor = (pos default_downsize_percent, floor)
  downsize_threshold (some t) floor =
      (or_else (pos default_downsize_percent) t.percent, or_else floor t.min_decrease)

module _ {Q : Type 0} ⦃qu : Quantities Q⦄ where
  -- 10m and 15Mi
  abbrev pub default_cpu_floor : Q
  default_cpu_floor = qu.new_milli_quantity (pos 10) decimal_si

  abbrev pub default_memory_floor : Q
  default_memory_floor = qu.new_quantity (pos (15 * 1_048_576)) binary_si

  unfoldable pub tolerance_of : {F : Type 0} → ResourcesConfigs F Q → Tolerance Q
  unfolding downsize_threshold
  tolerance_of rs =
      let (cp, cf) = downsize_threshold rs.cpu_config.downsize_threshold default_cpu_floor in
      let (mp, mf) = downsize_threshold rs.memory_config.downsize_threshold default_memory_floor in
      record { cpu_percent = cp; cpu_floor = cf; mem_percent = mp; mem_floor = mf }

  abbrev pub milli : Q → ℤ
  milli q = pos (qu.milli_value q)

  -- The band that a decrease has to reach: the percentage of the current value, or the floor.
  unfoldable pub band : Q → ℤ → Q → ℤ
  band current percent floor =
      let part = int64 (pos (qu.milli_value current / 100) *ℤ percent) in
      if ltb_ℤ part (milli floor) then milli floor else part

  unfoldable pub within_decrease : Q → Option Q → ℤ → Q → Bool
  unfolding band
  within_decrease current none percent floor = false
  within_decrease current (some rec) percent floor =
      let delta = milli current -ℤ milli rec in
      if leb_ℤ delta (pos 0) then false else ltb_ℤ delta (band current percent floor)

  abbrev cleared_if : Bool → Option Q → Option Q
  cleared_if within q = if within then none else q

  unfoldable pub clamp_decrease :
      ResourceRequirements Q → ContainerRecommendation Q → Tolerance Q → ContainerRecommendation Q
  unfolding within_decrease
  clamp_decrease current rec tol =
      let within_cpu =
        λ (cur : Q) (q : Option Q). within_decrease cur q tol.cpu_percent tol.cpu_floor in
      let within_mem =
        λ (cur : Q) (q : Option Q). within_decrease cur q tol.mem_percent tol.mem_floor in
      record rec {
        cpu_request =
            cleared_if (within_cpu (value_in current.requests cpu) rec.cpu_request) rec.cpu_request;
        cpu_limit =
            cleared_if
              (not rec.remove_cpu_limit && within_cpu (value_in current.limits cpu) rec.cpu_limit)
              rec.cpu_limit;
        memory_request =
            cleared_if (within_mem (value_in current.requests memory) rec.memory_request)
              rec.memory_request;
        memory_limit =
            cleared_if
              (not rec.remove_memory_limit
                && within_mem (value_in current.limits memory) rec.memory_limit)
              rec.memory_limit;
      }

  -- The containers by name: the last of a name stays.
  unfoldable pub by_name :
      List (Container Q) → List (String × Container Q) → List (String × Container Q)
  unfolding String-discrete
  by_name [] named = named
  by_name (c ∷ cs) named = by_name cs (insert String-discrete c.name c named)

  abbrev clamp_found :
      Option (Container Q) → ContainerRecommendation Q → Tolerance Q → ContainerRecommendation Q
  clamp_found none rec tol = rec
  clamp_found (some c) rec tol = clamp_decrease c.resources rec tol

  unfoldable pub clamp_each :
      List (String × Container Q)
      → List (String × ContainerRecommendation Q)
      → Tolerance Q
      → List (String × ContainerRecommendation Q)
  unfolding clamp_decrease String-discrete
  clamp_each named [] tol = []
  clamp_each named ((name, rec) ∷ recs) tol =
      (name, clamp_found (lookup String-discrete name named) rec tol) ∷ clamp_each named recs tol

  unfoldable pub clamp_recs :
      List (Container Q)
      → List (String × ContainerRecommendation Q)
      → Tolerance Q
      → List (String × ContainerRecommendation Q)
  unfolding clamp_each by_name
  clamp_recs current recs tol = clamp_each (by_name current []) recs tol
