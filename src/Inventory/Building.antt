-- ===== src/Inventory/Building.antt =====
-- internal/inventory/inventory.go: the reads that make a snapshot. The lists of the API and the
-- annotations of a Namespace are parameters, each the answer to a read or its error.
use k8s_sustain.Prelude.{
  Bool, true, false, ◌||◌, not, Option, none, some, List, [], ◌∷◌, ◌++◌, String, lookup, insert,
  if◌then◌else◌,
}
use k8s_sustain.Prelude.Time.{Time, zero_time}
use k8s_sustain.OomWatch.{Identity as Key, identity_discrete}
use k8s_sustain.Api.{Container}
use k8s_sustain.WlrCache.{Object}
use k8s_sustain.Governance.{Texts, Refusal, no_owner}
use k8s_sustain.Governance.Consent.{Policies, contains}
use k8s_sustain.Governance.Walk.{
  Res, ok, err, Subject, pod_template, a_pod, departed, Reader, Decision, decide,
}
use k8s_sustain.Patcher.Pods.{is_owned_by_kind}
use k8s_sustain.Patcher.Members.{Job, job_finished}
use k8s_sustain.Inventory.{Member, Identity}
use k8s_sustain.Inventory.Settling.{has_departed}

-- `workload.SupportedKinds`
abbrev pub supported_kinds : List String
supported_kinds =
    "Deployment" ∷ "StatefulSet" ∷ "DaemonSet" ∷ "Rollout" ∷ "CronJob" ∷ "Job" ∷ "Pod" ∷ []

-- What `workload.PodTemplateOf` answers of an object.
pub record Template (Q : Type 0) : Type 0 where
  pub labels : Texts
  pub annotations : Texts
  pub containers : List (Container Q)
  pub init_containers : List (Container Q)

pub record WorkloadListed (Q : Type 0) : Type 0 where
  pub name : String
  pub namespace : String
  pub created : Time
  pub annotations : Texts
  -- the object as a Job, where it is one
  pub job : Option Job
  pub template : Option (Template Q)

pub record PodListed (Q : Type 0) : Type 0 where
  pub name : String
  pub namespace : String
  pub created : Time
  pub labels : Texts
  pub annotations : Texts
  -- `metav1.GetControllerOf` finds one
  pub has_controller : Bool
  pub containers : List (Container Q)
  pub init_containers : List (Container Q)

pub data Listed (A : Type 0) : Type 0 where
  items : List A → Listed A
  -- the cluster does not serve the kind
  no_match : Listed A
  not_listed : String → Listed A

-- What a snapshot reads. A namespace "" stands for all of them.
pub record Sources (F Q : Type 0) : Type 0 where
  pub policies : Res Policies
  pub workloads : String → String → Listed (WorkloadListed Q)
  pub pods : String → Listed (PodListed Q)
  pub recommendations : String → Listed (Object F Q)
  pub namespace_annotations : String → Res Texts

-- The kinds and the namespaces in scope, empty for all.
pub record Options : Type 0 where
  pub namespaces : List String
  pub kinds : List String

abbrev pub Builder : Type 0 → Type 0 → Type 0
Builder F Q = List (Key × Identity F Q)

abbrev pub scopes_of : List String → List String
scopes_of [] = "" ∷ []
scopes_of (ns ∷ rest) = ns ∷ rest

unfoldable pub in_scope : Options → String → Bool
in_scope opts kind = elim opts.kinds [ [] ↦ true | _ ∷ _ ↦ contains opts.kinds kind ]

abbrev pub then_with : {A B : Type 0} → Res A → (A → Res B) → Res B
then_with (err e) f = err e
then_with (ok a) f = f a

-- Each item of a listing in turn, up to an error.
unfoldable pub visit_each : {A B : Type 0} → (A → B → Res B) → List A → B → Res B
visit_each visit [] b = ok b
visit_each visit (a ∷ rest) b = then_with (visit a b) (visit_each visit rest)

-- `list`: one List per namespace in scope, of which none is served after one that is not.
unfoldable pub list_each :
    {A B : Type 0} → (String → Listed A) → (A → B → Res B) → List String → B → Res B
unfolding visit_each
list_each listing visit [] b = ok b
list_each listing visit (ns ∷ scopes) b = elim (listing ns) [
  | no_match ↦ ok b
  | not_listed e ↦ err e
  | items xs ↦ then_with (visit_each visit xs b) (list_each listing visit scopes)
]

-- The builder as the walk's reader: it serves the Policies listed, and never resolves a controller.
unfoldable pub reader_of : Policies → (String → Res Texts) → Reader
reader_of ps namespace_annotations = record {
  policies = ok ps;
  pod_owner = err "the inventory resolves no controller owner";
  workload_annotations = λ ns kind name. err "the inventory reads no workload annotations";
  namespace_annotations = namespace_annotations;
}

unfoldable pub policy_name : Decision → String
policy_name d = elim d.policy [ none ↦ "" | some p ↦ p.name ]

abbrev refused_for : Refusal → Bool
refused_for no_owner = true
refused_for _ = false

abbrev pub is_no_owner : Option Refusal → Bool
is_no_owner none = false
is_no_owner (some r) = refused_for r

abbrev pub is_left_out : Option Job → Bool
is_left_out none = false
is_left_out (some job) = is_owned_by_kind job.owners "CronJob" || job_finished job

module _ {F Q : Type 0} where
  abbrev pub new_identity : Key → Identity F Q
  new_identity key = record {
    key = key;
    members = [];
    containers = [];
    init_containers = [];
    since = zero_time;
    policy = "";
    conflicted = false;
    recommendation = none;
  }

  abbrev pub or_fresh : Key → Option (Identity F Q) → Identity F Q
  or_fresh key none = new_identity key
  or_fresh key (some id) = id

  unfoldable pub identity : Key → Builder F Q → Identity F Q
  identity key b = or_fresh key (lookup identity_discrete key b)

  unfoldable pub add_member : Key → Member Q → Builder F Q → Builder F Q
  unfolding identity
  add_member key m b =
      let id = identity key b in
      insert identity_discrete key (record id { members = id.members ++ m ∷ [] }) b

-- `governance.PodTemplate`, `governance.Pod` of a pod that has no controller, and
-- `governance.Departed`
unfoldable pub template_subject : {Q : Type 0} → String → WorkloadListed Q → Template Q → Subject
template_subject kind obj tmpl = record {
  namespace = obj.namespace;
  labels = tmpl.labels;
  annotations = tmpl.annotations;
  origin = pod_template kind obj.name obj.annotations;
}

unfoldable pub pod_subject : {Q : Type 0} → PodListed Q → Subject
pod_subject pod = record {
  namespace = pod.namespace;
  labels = pod.labels;
  annotations = pod.annotations;
  origin = a_pod false;
}

unfoldable pub departed_subject : Key → String → Subject
departed_subject (ns, (kind, name)) policy = record {
  namespace = ns;
  labels = [];
  annotations = [];
  origin = departed (ns, (kind, name)) policy;
}

module _ {F Q : Type 0} where
  abbrev pub add_template :
      WorkloadListed Q → Template Q → Builder F Q → Decision → Res (Builder F Q)
  add_template obj tmpl b d = ok (
      add_member d.identity
        (record {
          name = obj.name;
          created = obj.created;
          policy = policy_name d;
          containers = tmpl.containers;
          init_containers = tmpl.init_containers;
        })
        b)

  abbrev pub add_pod : PodListed Q → Builder F Q → Decision → Res (Builder F Q)
  add_pod pod b d =
      if is_no_owner d.refusal
      then ok b
      else ok (
          add_member d.identity
            (record {
              name = pod.name;
              created = pod.created;
              policy = policy_name d;
              containers = pod.containers;
              init_containers = pod.init_containers;
            })
            b)

  abbrev pub add_governed : Key → Identity F Q → Builder F Q → Decision → Res (Builder F Q)
  add_governed key id b d =
      ok (insert identity_discrete key (record id { policy = policy_name d }) b)

module _ {F Q : Type 0} (is_label_value : String → Bool) (r : Reader) where
  -- What `addWorkloads` does with an object, once its template is looked for.
  abbrev pub visit_template :
      String → WorkloadListed Q → Option (Template Q) → Builder F Q → Res (Builder F Q)
  visit_template kind obj none b = ok b
  visit_template kind obj (some tmpl) b =
      then_with (decide is_label_value (template_subject kind obj tmpl) r) (add_template obj tmpl b)

  unfoldable pub visit_workload : String → WorkloadListed Q → Builder F Q → Res (Builder F Q)
  unfolding is_owned_by_kind job_finished template_subject decide policy_name add_member
  visit_workload kind obj b =
      if is_left_out obj.job then ok b else visit_template kind obj obj.template b

  unfoldable pub visit_pod : PodListed Q → Builder F Q → Res (Builder F Q)
  unfolding pod_subject decide policy_name add_member
  visit_pod pod b =
      if pod.has_controller
      then ok b
      else then_with (decide is_label_value (pod_subject pod) r) (add_pod pod b)

  -- An identity with its WorkloadRecommendation.
  unfoldable pub add_recommendation : Key → String → Identity F Q → Builder F Q → Res (Builder F Q)
  unfolding has_departed departed_subject decide policy_name
  add_recommendation key policy id b =
      if not (has_departed id)
      then ok (insert identity_discrete key id b)
      else then_with (decide is_label_value (departed_subject key policy) r) (add_governed key id b)

  unfoldable pub visit_recommendation : Options → Object F Q → Builder F Q → Res (Builder F Q)
  unfolding in_scope identity add_recommendation
  visit_recommendation opts wlr b =
      let key : Key = (wlr.ref.namespace, (wlr.ref.kind, wlr.ref.name)) in
      if not (in_scope opts wlr.ref.kind)
      then ok b
      else add_recommendation key wlr.policy (record (identity key b) { recommendation = some wlr })
          b
