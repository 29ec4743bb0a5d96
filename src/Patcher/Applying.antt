-- ===== src/Patcher/Applying.antt =====
-- internal/workload/apply.go: what applying a Recommendation does with one member.
use k8s_sustain.Prelude.{
  Bool, true, false, ◌||◌, not, Option, none, some, List, [], String, is_some, is_filled, length,
  ◌+◌, ℕ, if◌then◌else◌,
}
use k8s_sustain.Units.{Quantities}
use k8s_sustain.Api.{ResourcesConfigs, ContainerRecommendation}
use k8s_sustain.WlrCache.{same_text}
use k8s_sustain.Governance.{UpdateMode, on_create, ongoing, UpdateTypes, mode_for_kind}
use k8s_sustain.Workload.Inject.{inject}
use k8s_sustain.Workload.Tolerance.{tolerance_of}
use k8s_sustain.Patcher.Pods.{count_pods}
use k8s_sustain.Patcher.Cluster.{Cluster, PassError, Patcher}
use k8s_sustain.Patcher.Changes.{by_flag, by_policy, ApplySettings, PodSet, PassResult}
use k8s_sustain.Patcher.Recycling.{recycle, resize_in_place_only}
use k8s_sustain.Patcher.Members.{
  Member, Owners, ApplyError, no_apply_rule, pass_failed, Found, found, not_found, selected_pods,
  cron_job_pods, job_pods, bare_pods,
}

-- The parts of a Policy that say how to apply.
pub record RightSizing (F Q : Type 0) : Type 0 where
  pub update_types : UpdateTypes
  pub recommend_only : Bool
  pub ignore_autoscaler_annotations : Bool
  pub resources : ResourcesConfigs F Q

abbrev is_ongoing : Option UpdateMode → Bool
is_ongoing none = false
is_ongoing (some on_create) = false
is_ongoing (some ongoing) = true

unfoldable pub apply_settings_for :
    {F Q : Type 0} → ⦃qu : Quantities Q⦄ → RightSizing F Q → String → Bool → ApplySettings Q
unfolding mode_for_kind tolerance_of
apply_settings_for rs kind recommend_only = record {
  recommend_only =
      if recommend_only then some by_flag else if rs.recommend_only then some by_policy else none;
  dry_run = not (is_ongoing (mode_for_kind rs.update_types kind));
  tolerance = tolerance_of rs.resources;
  ignore_safe_to_evict = rs.ignore_autoscaler_annotations;
}

pub data ResultKind : Type 0 where
  done idle counted_only failed : ResultKind

pub data Step : Type 0 where
  step_prometheus step_patch step_resize step_store : Step

pub record ApplyResult : Type 0 where
  pub kind : ResultKind
  -- the step that failed, and why
  pub failure : Option (Step × ApplyError)
  pub pass : PassResult

-- How the pods of a kind are found.
pub data PodsOf : Type 0 where
  by_selector_of : String → PodsOf
  of_cron_job of_job bare : PodsOf

pub record ApplyRule : Type 0 where
  pub in_place_only : Bool
  pub pods_of : PodsOf

unfoldable pub apply_rules : String → Option ApplyRule
apply_rules kind =
    if same_text kind "Deployment"
      || same_text kind "StatefulSet"
      || same_text kind "DaemonSet"
      || same_text kind "Rollout"
    then some (record { in_place_only = false; pods_of = by_selector_of kind })
    else if same_text kind "CronJob"
    then some (record { in_place_only = true; pods_of = of_cron_job })
    else if same_text kind "Job"
    then some (record { in_place_only = true; pods_of = of_job })
    else if same_text kind "Pod"
    then some (record { in_place_only = true; pods_of = bare })
    else none

abbrev pub rule_in_place_only : Option ApplyRule → Bool
rule_in_place_only none = false
rule_in_place_only (some rule) = rule.in_place_only

unfoldable pub in_place_only : String → Bool
unfolding apply_rules
in_place_only kind = rule_in_place_only (apply_rules kind)

abbrev pub no_pass : PassResult
no_pass = record {
  pods = record { total = 0; stale = 0 };
  counted = false;
  resized = [];
  evicted = [];
  containers = [];
  suppressed = [];
}

abbrev pub idle_result : ApplyResult
idle_result = record { kind = idle; failure = none; pass = no_pass }

abbrev pub failed_at : Step → ApplyError → PassResult → ApplyResult
failed_at step e pass = record { kind = failed; failure = some (step, e); pass = pass }

-- `Changed`: the pods resized in place or evicted.
unfoldable pub changed : ApplyResult → ℕ
changed r = length r.pass.resized + length r.pass.evicted

abbrev step_of : ApplyRule → Step
step_of rule = if rule.in_place_only then step_resize else step_patch

module _ {S R L Q : Type 0} ⦃qu : Quantities Q⦄ (api : Cluster S L Q) (own : Owners S R L Q) where
  unfoldable pub pods_of_member : PodsOf → Member R Q → S → S × Found (PodSet L Q)
  unfolding selected_pods cron_job_pods job_pods bare_pods
  pods_of_member (by_selector_of type) m s = selected_pods api.view own type m s
  pods_of_member of_cron_job m s = cron_job_pods api.view own m s
  pods_of_member of_job m s = job_pods api.view own m s
  pods_of_member bare m s = bare_pods api.view own m s

  -- The Result of a pass that ran.
  abbrev pub passed : Step → S × (PassResult × List PassError) → S × ApplyResult
  passed step (s, (pass, errors)) = (
    s,
    if is_filled errors
        then failed_at step (pass_failed errors) pass
        else record { kind = done; failure = none; pass = pass },
  )

  abbrev pub apply_to_pods :
      Patcher
      → ApplyRule
      → PodSet L Q
      → List (String × ContainerRecommendation Q)
      → ApplySettings Q
      → S
      → S × ApplyResult
  apply_to_pods p rule set recs settings s =
      if settings.dry_run
      then (
        s,
        record {
          kind = counted_only;
          failure = none;
          pass = record no_pass {
            pods = count_pods set.pods recs settings.tolerance [] (record { total = 0; stale = 0 });
            counted = true;
          };
        },
      )
      else if rule.in_place_only
      then passed (step_of rule) (resize_in_place_only api p set.pods recs settings s)
      else passed (step_of rule) (recycle api p set recs settings s)

  abbrev pub apply_found :
      Patcher
      → ApplyRule
      → List (String × ContainerRecommendation Q)
      → ApplySettings Q
      → S × Found (PodSet L Q)
      → S × ApplyResult
  apply_found p rule recs settings (s, found set) = apply_to_pods p rule set recs settings s
  apply_found p rule recs settings (s, not_found e) = (
    s,
    if settings.dry_run
        then record { kind = counted_only; failure = none; pass = no_pass }
        else failed_at (step_of rule) e no_pass,
  )

  abbrev pub apply_by_rule :
      Patcher
      → Option ApplyRule
      → Member R Q
      → List (String × ContainerRecommendation Q)
      → ApplySettings Q
      → S
      → S × ApplyResult
  apply_by_rule p none m recs settings s = (s, failed_at step_patch no_apply_rule no_pass)
  apply_by_rule p (some rule) m recs settings s =
      apply_found p rule recs settings (pods_of_member rule.pods_of m s)

  unfoldable pub apply :
      Patcher
      → Member R Q
      → List (String × ContainerRecommendation Q)
      → ApplySettings Q
      → S
      → S × ApplyResult
  unfolding inject apply_rules pods_of_member count_pods recycle resize_in_place_only
  apply p m recs settings s =
      let narrowed = (inject m.containers m.init_containers false recs).recs in
      if not (is_filled narrowed) || is_some settings.recommend_only
      then (s, idle_result)
      else apply_by_rule p (apply_rules m.kind) m narrowed settings s
