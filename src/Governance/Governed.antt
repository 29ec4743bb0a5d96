-- ===== src/Governance/Governed.antt =====
-- Who governs a subject (internal/governance/governance.go), against every level read up front.
use k8s_sustain.Prelude.{
  ◌≡◌, refl, Bool, true, false, Option, none, some, [], ◌∷◌, String, String-discrete, lookup, arith,
  is_same_iff, Bool-cases, sym, ◌∙◌, inl, inr,
}
use k8s_sustain.OomWatch.{Identity}
use k8s_sustain.WlrCache.{same_text}
use k8s_sustain.Governance.{
  Texts, value_of, policy_annotation, opt_out_annotation, mode_for_kind, UpdateTypes,
}
use k8s_sustain.Governance.Consent.{
  GovernancePolicy, Policies, Consent, given, refused, consent, departed_consent,
}
use k8s_sustain.Governance.Walk.{Origin, pod_template, a_pod, departed, Subject, decide}
use k8s_sustain.Governance.Governor.{
  answering, first_opt_in, governor_named, kind_under, policy_of, governor,
}
use k8s_sustain.Governance.Gate.{consent-gate_refusal}

abbrev managed : String → GovernancePolicy → Option GovernancePolicy
managed kind p = elim (mode_for_kind p.types kind) [ none ↦ none | some _ ↦ some p ]

abbrev governing : String → Consent GovernancePolicy → Option GovernancePolicy
governing kind (refused r) = none
governing kind (given p) = managed kind p

consent-governor :
    (ps : Policies) (s : Subject) (kind name : String)
    → governing kind (consent ps name s.namespace s.labels) ≡ governor_named ps s kind (some name)
unfolding consent
consent-governor ps s kind name = ground arith

-- Whoever the levels name, of a subject whose owner is known or read.
abbrev governing_opt : Policies → Subject → String → Option String → Option GovernancePolicy
governing_opt ps s kind none = none
governing_opt ps s kind (some name) = governing kind (consent ps name s.namespace s.labels)

governing_opt-named :
    (ps : Policies) (s : Subject) (kind : String) (name : Option String)
    → governing_opt ps s kind name ≡ governor_named ps s kind name
governing_opt-named ps s kind none = refl
governing_opt-named ps s kind (some name) = consent-governor ps s kind name

mode_for_no_kind : (t : UpdateTypes) → mode_for_kind t "" ≡ none
unfolding mode_for_kind String-discrete
mode_for_no_kind t = refl

managed_nothing : (kind : String) (p : GovernancePolicy) → kind ≡ "" → managed kind p ≡ none
managed_nothing kind p e = rw e (ground (arith, mode_for_no_kind p.types))

no_consent : (c : Consent GovernancePolicy) (kind : String) → kind ≡ "" → governing kind c ≡ none
no_consent (refused r) kind e = refl
no_consent (given p) kind e = managed_nothing kind p e

governing_nothing :
    (ps : Policies) (s : Subject) (kind : String) (name : Option String)
    → same_text kind "" ≡ true
    → governing_opt ps s kind name ≡ none
governing_nothing ps s kind none e = refl
governing_nothing ps s kind (some name) e =
    no_consent (consent ps name s.namespace s.labels) kind
      ((is_same_iff String-discrete kind "").0 e)

value_of_nothing : (key : String) → value_of key [] ≡ ""
unfolding value_of lookup
value_of_nothing key = refl

silent_level : (same_text "" "true" ≡ false) × (same_text "" "" ≡ true)
unfolding String-discrete
silent_level = (refl, refl)

module _ (is_label_value : String → Bool) (namespace : String) (labels annotations : Texts)
    (ps : Policies) (owner : String × String) (workload above : Texts) where
  abbrev subject : Origin → Subject
  subject origin = record {
    namespace = namespace;
    labels = labels;
    annotations = annotations;
    origin = origin;
  }

  template-governor :
      (kind name : String) (own : Texts)
      → let s = subject (pod_template kind name own) in
        policy_of (decide is_label_value s (answering ps owner workload above))
        ≡ governing_opt ps s
            (kind_under is_label_value s (kind, name))
            (first_opt_in (annotations ∷ own ∷ above ∷ []))
  unfolding decide
  template-governor kind name own =
      ground (arith, consent-gate_refusal ps (value_of policy_annotation above) namespace labels)

  owned-governor :
      let s = subject (a_pod true) in
      policy_of (decide is_label_value s (answering ps owner workload above))
      ≡ governing_opt ps s
          (kind_under is_label_value s owner)
          (first_opt_in (annotations ∷ workload ∷ above ∷ []))
  unfolding decide
  owned-governor = ground (
    arith,
    consent-gate_refusal ps (value_of policy_annotation workload) namespace labels,
    consent-gate_refusal ps (value_of policy_annotation above) namespace labels,
  )

  bare-governor :
      let s = subject (a_pod false) in
      policy_of (decide is_label_value s (answering ps owner workload above))
      ≡ governing_opt ps s
          (kind_under is_label_value s ("", ""))
          (first_opt_in (annotations ∷ above ∷ []))
  unfolding decide
  bare-governor =
      let s = subject (a_pod false) in
      let kind = kind_under is_label_value s ("", "") in
      elim (Bool-cases (same_text kind "")) [
        | inl e ↦
            rw e (sym (governing_nothing ps s kind (first_opt_in (annotations ∷ above ∷ [])) e))
        | inr e ↦ rw e (
            ground (
              arith,
              value_of_nothing policy_annotation,
              value_of_nothing opt_out_annotation,
              silent_level,
              consent-gate_refusal ps (value_of policy_annotation above) namespace labels,
            ))
      ]

  departed-governor :
      (id : Identity) (policy : String)
      → let s = subject (departed id policy) in
        policy_of (decide is_label_value s (answering ps owner workload above))
        ≡ governor is_label_value s ps owner workload above
  unfolding decide departed_consent
  departed-governor id policy = ground arith

  decide-origin :
      (o : Origin)
      → policy_of (decide is_label_value (subject o) (answering ps owner workload above))
        ≡ governor is_label_value (subject o) ps owner workload above
  decide-origin (pod_template kind name own) =
      template-governor kind name own
      ∙ governing_opt-named ps (subject (pod_template kind name own)) _ _
  decide-origin (a_pod true) = owned-governor ∙ governing_opt-named ps (subject (a_pod true)) _ _
  decide-origin (a_pod false) = bare-governor ∙ governing_opt-named ps (subject (a_pod false)) _ _
  decide-origin (departed id policy) = departed-governor id policy

-- Decide governs exactly as if every level had been read and no Policy been asked before: the Policy
-- that the first deciding level names, or a Departed identity's object, when it exists, accepts the
-- namespace and the labels and manages the kind. The gate and the order of the reads change
-- nothing, where every read answers.
pub decide-governor :
    (is_label_value : String → Bool) (s : Subject) (ps : Policies) (owner : String × String)
    (workload namespace : Texts)
    → policy_of (decide is_label_value s (answering ps owner workload namespace))
      ≡ governor is_label_value s ps owner workload namespace
decide-governor is_label_value s ps owner workload namespace =
    decide-origin is_label_value s.namespace s.labels s.annotations ps owner workload namespace
      s.origin
