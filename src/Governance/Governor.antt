-- ===== src/Governance/Governor.antt =====
-- Who governs a subject when every level is read up front and no Policy is asked beforehand: what
-- Decide of internal/governance/governance.go is held against.
use k8s_sustain.Prelude.{
  Bool, true, false, ◌&&◌, not, Option, none, some, List, [], ◌∷◌, String, String-discrete, lookup,
  is_filled, if◌then◌else◌,
}
use k8s_sustain.WlrCache.{same_text}
use k8s_sustain.Governance.{
  Texts, value_of, policy_annotation, opt_out_annotation, mode_for_kind, apply_owner_name_override,
}
use k8s_sustain.Governance.Consent.{GovernancePolicy, Compiled, Policies, contains, matches}
use k8s_sustain.Governance.Walk.{
  Res, ok, err, Origin, pod_template, a_pod, departed, Subject, Reader, Decision,
}

-- A Reader whose reads all answer.
abbrev pub answering : Policies → String × String → Texts → Texts → Reader
answering ps owner workload namespace = record {
  policies = ok ps;
  pod_owner = ok owner;
  workload_annotations = λ _ _ _. ok workload;
  namespace_annotations = λ _. ok namespace;
}

-- The first level that opts out or names a Policy decides.
abbrev pub first_opt_in : List Texts → Option String
first_opt_in [] = none
first_opt_in (annotations ∷ levels) =
    let rest = first_opt_in levels in
    let name = value_of policy_annotation annotations in
    if same_text (value_of opt_out_annotation annotations) "true"
    then none
    else if same_text name ""
    then rest
    else some name

-- A Policy accepts a namespace, and labels.
abbrev accepts_namespace : List String → Compiled → String → Bool
accepts_namespace excluded c namespace =
    not (contains excluded namespace)
    && not (is_filled c.policy.namespaces && not (contains c.policy.namespaces namespace))

abbrev accepts_labels : Compiled → Texts → Bool
accepts_labels c labels = not c.is_invalid && matches c.selector labels

abbrev managing : String → Compiled → Option GovernancePolicy
managing kind c = elim (mode_for_kind c.policy.types kind) [ none ↦ none | some _ ↦ some c.policy ]

-- The Policy of a name, if it accepts the subject and manages the kind.
abbrev pub governor_named : Policies → Subject → String → Option String → Option GovernancePolicy
governor_named ps s kind none = none
governor_named ps s kind (some name) = elim (lookup String-discrete name ps.by_name) [
  | none ↦ none
  | some c ↦
      if accepts_namespace ps.excluded c s.namespace && accepts_labels c s.labels
      then managing kind c
      else none
]

abbrev pub kind_under : (String → Bool) → Subject → String × String → String
kind_under is_label_value s owner = (apply_owner_name_override is_label_value owner s.annotations).0

abbrev pub policy_of : Res Decision → Option GovernancePolicy
policy_of (ok d) = d.policy
policy_of (err e) = none

abbrev owner_of : Origin → String × String → String × String
owner_of (pod_template kind name own) owner = (kind, name)
owner_of (a_pod true) owner = owner
owner_of (a_pod false) owner = ("", "")
owner_of (departed (_, (kind, name)) policy) owner = (kind, name)

-- The levels of an origin, the most specific one first.
abbrev levels_of : Origin → (annotations workload namespace : Texts) → List Texts
levels_of (pod_template kind name own) annotations workload namespace =
    annotations ∷ own ∷ namespace ∷ []
levels_of (a_pod true) annotations workload namespace = annotations ∷ workload ∷ namespace ∷ []
levels_of (a_pod false) annotations workload namespace = annotations ∷ namespace ∷ []
levels_of (departed id policy) annotations workload namespace = []

abbrev departed_governor : Policies → String → String → Option Compiled → Option GovernancePolicy
departed_governor ps namespace kind none = none
departed_governor ps namespace kind (some c) =
    if accepts_namespace ps.excluded c namespace && not c.is_invalid then managing kind c else none

-- Who governs a subject when every level is read, and no Policy is asked beforehand.
abbrev pub governor :
    (String → Bool) → Subject → Policies → String × String → Texts → Texts → Option GovernancePolicy
governor is_label_value s ps owner workload namespace = elim s.origin [
  | departed (_, (kind, _)) policy ↦
      departed_governor ps s.namespace kind (lookup String-discrete policy ps.by_name)
  | pod_template k n own ↦
      governor_named ps s (kind_under is_label_value s (k, n))
        (first_opt_in (levels_of (pod_template k n own) s.annotations workload namespace))
  | a_pod b ↦
      governor_named ps s (kind_under is_label_value s (owner_of (a_pod b) owner))
        (first_opt_in (levels_of (a_pod b) s.annotations workload namespace))
]
