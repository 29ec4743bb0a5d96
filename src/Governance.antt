-- ===== src/Governance.antt =====
-- internal/governance: which Policy governs a pod or a pod template.
pub mod Consent
pub mod Walk
pub mod Governor
pub mod Gate
pub mod Governed
mod Examples
use k8s_sustain.Prelude.{
  Bool, true, false, not, Option, none, some, List, [], ◌∷◌, String, String-discrete, lookup, ◌||◌,
  if◌then◌else◌,
}
use k8s_sustain.OomWatch.{Identity}
use k8s_sustain.WlrCache.{same_text}

-- A Go map of labels or annotations.
abbrev pub Texts : Type 0
Texts = List (String × String)

-- The value of a key, empty where it is absent.
unfoldable pub value_of : String → Texts → String
unfolding String-discrete
value_of key texts = elim (lookup String-discrete key texts) [ none ↦ "" | some v ↦ v ]

abbrev pub policy_annotation : String
policy_annotation = "k8s.sustain.io/policy"

abbrev pub opt_out_annotation : String
opt_out_annotation = "k8s.sustain.io/opt-out"

abbrev pub owner_name_annotation : String
owner_name_annotation = "k8s.sustain.io/owner-name"

pub data UpdateMode : Type 0 where
  on_create ongoing : UpdateMode

pub record UpdateTypes : Type 0 where
  pub deployment : Option UpdateMode
  pub stateful_set : Option UpdateMode
  pub daemon_set : Option UpdateMode
  pub cron_job : Option UpdateMode
  pub job : Option UpdateMode
  pub argo_rollout : Option UpdateMode
  pub pod : Option UpdateMode

unfoldable pub mode_for_kind : UpdateTypes → String → Option UpdateMode
mode_for_kind t kind =
    if same_text kind "Deployment"
    then t.deployment
    else if same_text kind "StatefulSet"
    then t.stateful_set
    else if same_text kind "DaemonSet"
    then t.daemon_set
    else if same_text kind "CronJob"
    then t.cron_job
    else if same_text kind "Job"
    then t.job
    else if same_text kind "Rollout"
    then t.argo_rollout
    else if same_text kind "Pod"
    then t.pod
    else none

-- `ApplyOwnerNameOverride`, over the API's check of a label value.
unfoldable pub apply_owner_name_override :
    (is_label_value : String → Bool) → String × String → Texts → String × String
apply_owner_name_override is_label_value (kind, name) annotations =
    let v = value_of owner_name_annotation annotations in
    if same_text v "" || not (is_label_value v)
    then (kind, name)
    else (if same_text kind "" then "Pod" else kind, v)

pub data Level : Type 0 where
  level_none pod_template_level workload_level namespace_level : Level

pub data Refusal : Type 0 where
  no_owner no_policy_selects not_opted_in opted_out policy_missing namespace_excluded : Refusal
  namespace_not_selected selector_invalid labels_not_selected kind_not_managed : Refusal
