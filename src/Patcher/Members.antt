-- ===== src/Patcher/Members.antt =====
-- internal/workload: the pods of a member. apply.go finds them by the workload's selector, by its
-- Jobs or in the inventory, and ownerref.go confirms whose they are.
use k8s_sustain.Prelude.{
  Bool, true, false, ◌&&◌, not, Option, none, some, List, [], ◌∷◌, ◌++◌, String, String-discrete,
  lookup, insert, any, if◌then◌else◌,
}
use k8s_sustain.Api.{Container}
use k8s_sustain.WlrCache.{same_text}
use k8s_sustain.Patcher.Pods.{OwnerReference, Pod, NameSet, is_owned_by}
use k8s_sustain.Patcher.Cluster.{Rejection, is_not_found, Answer, granted, denied, View, PassError}
use k8s_sustain.Patcher.Changes.{PodSet}

-- A workload object. `type` is its kind, by its Go type; R is a label selector as declared.
pub record WorkloadObject (R : Type 0) : Type 0 where
  pub type : String
  pub namespace : String
  pub name : String
  pub uid : String
  pub selector : Option R

pub record Member (R Q : Type 0) : Type 0 where
  pub kind : String
  pub object : WorkloadObject R
  pub pods : List (Pod Q)
  pub containers : List (Container Q)
  pub init_containers : List (Container Q)

-- The condition types of a Job that the code tells apart.
pub data JobConditionType : Type 0 where
  job_complete job_failed other_job_condition : JobConditionType

pub record Job : Type 0 where
  pub name : String
  pub namespace : String
  pub uid : String
  pub owners : List OwnerReference
  -- a condition's type, and whether its status is "True"
  pub job_conditions : List (JobConditionType × Bool)

-- What finding pods calls besides the listing by a selector.
pub record Owners (S R L Q : Type 0) : Type 0 where
  -- `metav1.LabelSelectorAsSelector`, or its error
  pub as_selector : R → Option L
  -- `metav1.GetControllerOf`
  pub controller_of : List OwnerReference → Option OwnerReference
  -- the owner references of a ReplicaSet, by namespace and name
  pub get_replica_set : String → String → S → S × Answer (List OwnerReference)
  -- the Jobs of a namespace, and the pods that carry the label of a Job
  pub list_jobs : String → S → S × Answer (List Job)
  pub list_labelled : String → String → S → S × Answer (List (Pod Q))

-- The first five and `bare_without_uid` wrap ErrRefused.
pub data ApplyError : Type 0 where
  no_apply_rule other_type no_uid no_selector selector_unparsed : ApplyError
  bare_without_uid : String → ApplyError
  pods_not_listed jobs_not_listed : Rejection → ApplyError
  owner_unresolved job_pods_not_listed : String → Rejection → ApplyError
  pass_failed : List PassError → ApplyError

abbrev pub is_refused : ApplyError → Bool
is_refused (pods_not_listed _) = false
is_refused (jobs_not_listed _) = false
is_refused (owner_unresolved _ _) = false
is_refused (job_pods_not_listed _ _) = false
is_refused (pass_failed _) = false
is_refused _ = true

pub data Found (A : Type 0) : Type 0 where
  found : A → Found A
  not_found : ApplyError → Found A

abbrev ends_job : JobConditionType × Bool → Bool
ends_job (job_complete, holds) = holds
ends_job (job_failed, holds) = holds
ends_job (other_job_condition, holds) = false

unfoldable pub job_finished : Job → Bool
job_finished job = any ends_job job.job_conditions

-- The Jobs that a CronJob controls and that have not finished.
unfoldable pub active_jobs : String → List Job → List Job
unfolding is_owned_by job_finished
active_jobs uid [] = []
active_jobs uid (j ∷ js) =
    let rest = active_jobs uid js in
    if is_owned_by j.owners uid && not (job_finished j) then j ∷ rest else rest

-- The pods that a Job controls, of those that carry its label.
unfoldable pub pods_owned_by : {Q : Type 0} → String → List (Pod Q) → List (Pod Q)
unfolding is_owned_by
pods_owned_by uid [] = []
pods_owned_by uid (pod ∷ pods) =
    let rest = pods_owned_by uid pods in
    if not (is_owned_by pod.owners uid) then rest else pod ∷ rest

unfoldable pub member_object : {R Q : Type 0} → String → Member R Q → Found (WorkloadObject R)
member_object type m =
    if not (same_text m.object.type type)
    then not_found other_type
    else if same_text m.object.uid ""
    then not_found no_uid
    else found m.object

abbrev and_also : {Q : Type 0} → List (Pod Q) → Found (List (Pod Q)) → Found (List (Pod Q))
and_also pods (found rest) = found (pods ++ rest)
and_also pods (not_found e) = not_found e

module _ {S R L Q : Type 0} (api : View S L Q) (own : Owners S R L Q) where
  -- What the ReplicaSet's answer says of the owner, and what the memo keeps of it.
  abbrev replica_set_owned :
      String → String → NameSet → S × Answer (List OwnerReference) → S × (NameSet × Answer Bool)
  replica_set_owned name uid memo (s, granted refs) =
      (s, (insert String-discrete name (is_owned_by refs uid) memo, granted (is_owned_by refs uid)))
  replica_set_owned name uid memo (s, denied is_not_found) =
      (s, (insert String-discrete name false memo, granted false))
  replica_set_owned name uid memo (s, denied e) = (s, (memo, denied e))

  abbrev owned_by_memo :
      Pod Q → OwnerReference → String → NameSet → Option Bool → S → S × (NameSet × Answer Bool)
  owned_by_memo pod ref uid memo (some owned) s = (s, (memo, granted owned))
  owned_by_memo pod ref uid memo none s =
      replica_set_owned ref.name uid memo (own.get_replica_set pod.namespace ref.name s)

  abbrev owned_by_controller :
      Pod Q → Option OwnerReference → String → NameSet → S → S × (NameSet × Answer Bool)
  owned_by_controller pod none uid memo s = (s, (memo, granted false))
  owned_by_controller pod (some ref) uid memo s =
      if same_text ref.uid uid
      then (s, (memo, granted true))
      else if not (same_text ref.kind "ReplicaSet")
      then (s, (memo, granted false))
      else owned_by_memo pod ref uid memo (lookup String-discrete ref.name memo) s

  unfoldable pub pod_owned_by_workload : Pod Q → String → NameSet → S → S × (NameSet × Answer Bool)
  unfolding String-discrete is_owned_by
  pod_owned_by_workload pod uid memo s =
      owned_by_controller pod (own.controller_of pod.owners) uid memo s

  -- The loop of `selectedPods`.
  unfoldable pub keep_owned : String → List (Pod Q) → NameSet → S → S × Found (List (Pod Q))
  unfolding pod_owned_by_workload
  keep_owned uid [] memo s = (s, found [])
  keep_owned uid (pod ∷ pods) memo s =
      let (s', (memo', owned)) = pod_owned_by_workload pod uid memo s in
      elim owned [
        | denied e ↦ (s', not_found (owner_unresolved pod.name e))
        | granted owns ↦
            let (s'', rest) = keep_owned uid pods memo' s' in
            (s'', and_also (if not owns then [] else pod ∷ []) rest)
      ]

  abbrev kept : WorkloadObject R → S × Answer (List (Pod Q)) → S × Found (List (Pod Q))
  kept obj (s, granted pods) = keep_owned obj.uid pods [] s
  kept obj (s, denied e) = (s, not_found (pods_not_listed e))

  abbrev pub in_set : String → Option L → S × Found (List (Pod Q)) → S × Found (PodSet L Q)
  in_set ns sel (s, found pods) =
      (s, found (record { pods = pods; namespace = ns; selector = sel }))
  in_set ns sel (s, not_found e) = (s, not_found e)

  abbrev by_selector : WorkloadObject R → Option L → S → S × Found (PodSet L Q)
  by_selector obj none s = (s, not_found selector_unparsed)
  by_selector obj (some sel) s =
      in_set obj.namespace (some sel) (kept obj (api.list_pods obj.namespace (some sel) s))

  abbrev selected : WorkloadObject R → Option R → S → S × Found (PodSet L Q)
  selected obj none s = (s, not_found no_selector)
  selected obj (some raw) s = by_selector obj (own.as_selector raw) s

  unfoldable pub selected_pods : String → Member R Q → S → S × Found (PodSet L Q)
  unfolding member_object keep_owned
  selected_pods type m s = elim (member_object type m) [
    | not_found e ↦ (s, not_found e)
    | found obj ↦ selected obj obj.selector s
  ]

  abbrev owned_answer : String → S × Answer (List (Pod Q)) → S × Answer (List (Pod Q))
  owned_answer uid (s, granted pods) = (s, granted (pods_owned_by uid pods))
  owned_answer uid (s, denied e) = (s, denied e)

  unfoldable pub pods_of_job : Job → S → S × Answer (List (Pod Q))
  unfolding pods_owned_by
  pods_of_job job s = owned_answer job.uid (own.list_labelled job.namespace job.name s)

  unfoldable pub pods_of_jobs : List Job → S → S × Found (List (Pod Q))
  unfolding pods_of_job
  pods_of_jobs [] s = (s, found [])
  pods_of_jobs (job ∷ jobs) s =
      let (s', answer) = pods_of_job job s in
      elim answer [
        | denied e ↦ (s', not_found (job_pods_not_listed job.name e))
        | granted pods ↦ let (s'', rest) = pods_of_jobs jobs s' in (s'', and_also pods rest)
      ]

  abbrev of_active_jobs : String → S × Answer (List Job) → S × Found (List (Pod Q))
  of_active_jobs uid (s, granted jobs) = pods_of_jobs (active_jobs uid jobs) s
  of_active_jobs uid (s, denied e) = (s, not_found (jobs_not_listed e))

  unfoldable pub cron_job_pods : Member R Q → S → S × Found (PodSet L Q)
  unfolding member_object active_jobs pods_of_jobs
  cron_job_pods m s = elim (member_object "CronJob" m) [
    | not_found e ↦ (s, not_found e)
    | found cj ↦ in_set "" none (of_active_jobs cj.uid (own.list_jobs cj.namespace s))
  ]

  abbrev of_job : Job → S × Answer (List (Pod Q)) → S × Found (List (Pod Q))
  of_job job (s, granted pods) = (s, found pods)
  of_job job (s, denied e) = (s, not_found (job_pods_not_listed job.name e))

  -- The member's object as a Job, of which only these fields are read.
  abbrev as_job : WorkloadObject R → Job
  as_job obj = record {
    name = obj.name;
    namespace = obj.namespace;
    uid = obj.uid;
    owners = [];
    job_conditions = [];
  }

  unfoldable pub job_pods : Member R Q → S → S × Found (PodSet L Q)
  unfolding member_object pods_of_job
  job_pods m s = elim (member_object "Job" m) [
    | not_found e ↦ (s, not_found e)
    | found obj ↦ in_set "" none (of_job (as_job obj) (pods_of_job (as_job obj) s))
  ]

  unfoldable pub keep_bare : List (Pod Q) → Found (List (Pod Q))
  keep_bare [] = found []
  keep_bare (pod ∷ pods) =
      let rest = keep_bare pods in
      if same_text pod.uid ""
      then not_found (bare_without_uid pod.name)
      else elim (own.controller_of pod.owners) [ some ref ↦ rest | none ↦ and_also (pod ∷ []) rest ]

  unfoldable pub bare_pods : Member R Q → S → S × Found (PodSet L Q)
  unfolding keep_bare
  bare_pods m s = in_set "" none (s, keep_bare m.pods)
