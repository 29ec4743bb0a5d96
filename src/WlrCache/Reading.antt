-- ===== src/WlrCache/Reading.antt =====
-- internal/wlrcache/read.go: what a stored object means to a pod that is being admitted.
use k8s_sustain.Prelude.{
  Bool, true, false, not, Option, none, some, List, String, is_filled, if◌then◌else◌,
}
use k8s_sustain.Prelude.Time.{Time, before}
use k8s_sustain.Api.{ContainerRecommendation}
use k8s_sustain.WlrCache.{Object, undecided, same_outcome, same_text, is_frozen}

pub data Verdict : Type 0 where
  absent undecided_yet no_data withheld stale fresh retained : Verdict

unfoldable pub injects : Verdict → Bool
injects fresh = true
injects retained = true
injects _ = false

-- The nil map of the source is `none`.
pub record Reading (Q : Type 0) : Type 0 where
  pub verdict : Verdict
  pub recs : Option (List (String × ContainerRecommendation Q))

abbrev verdict_alone : {Q : Type 0} → Verdict → Reading Q
verdict_alone v = record { verdict = v; recs = none }

module _ {F Q : Type 0} where
  -- `Read` of an object that is there.
  unfoldable pub read_object : Object F Q → String → Time → Reading Q
  read_object known policy now =
      if not (same_text known.policy policy)
      then verdict_alone withheld
      else if not (is_filled known.status.containers)
      then verdict_alone
          (if same_outcome known.status.outcome undecided then undecided_yet else no_data)
      else if not (same_text known.status.computed_by policy)
      then verdict_alone withheld
      else if not (before now known.status.servable_until)
      then verdict_alone stale
      else record {
        verdict = if is_frozen known.status then retained else fresh;
        recs = some known.status.containers;
      }

  unfoldable pub read : Option (Object F Q) → String → Time → Reading Q
  unfolding read_object
  read none policy now = verdict_alone absent
  read (some known) policy now = read_object known policy now

  unfoldable pub held :
      Option (Object F Q) → String → Option (List (String × ContainerRecommendation Q))
  held none policy = none
  held (some known) policy =
      if not (same_text known.status.computed_by policy)
      then none
      else if not (is_filled known.status.containers)
      then none
      else some known.status.containers
