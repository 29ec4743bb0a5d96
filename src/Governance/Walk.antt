-- ===== src/Governance/Walk.antt =====
-- internal/governance/governance.go: Decide, which reads a level of the opt-in only when every more
-- specific one is silent. A read of the Reader is its answer or its error.
use k8s_sustain.Prelude.{Bool, true, false, not, Option, none, some, [], String, if◌then◌else◌}
use k8s_sustain.OomWatch.{Identity}
use k8s_sustain.WlrCache.{same_text}
use k8s_sustain.Governance.{
  Texts, value_of, policy_annotation, opt_out_annotation, UpdateMode, mode_for_kind,
  apply_owner_name_override, Level, level_none, pod_template_level, workload_level, namespace_level,
  Refusal, no_owner, not_opted_in, opted_out, kind_not_managed,
}
use k8s_sustain.Governance.Consent.{
  GovernancePolicy, Policies, Consent, given, refused, consent, departed_consent, gate_refusal,
}

pub data Res {ℓ} (A : Type ℓ) : Type ℓ where
  ok : A → Res A
  err : String → Res A

-- What a subject is: the template of a workload of a kind and a name with its own annotations, a
-- pod that has a controller or none, or a Departed identity with the Policy its object names.
pub data Origin : Type 0 where
  pod_template : String → String → Texts → Origin
  a_pod : Bool → Origin
  departed : Identity → String → Origin

pub record Subject : Type 0 where
  pub namespace : String
  pub labels : Texts
  pub annotations : Texts
  pub origin : Origin

pub record Reader : Type 0 where
  pub policies : Res Policies
  pub pod_owner : Res (String × String)
  pub workload_annotations : String → String → String → Res Texts
  pub namespace_annotations : String → Res Texts

pub record Decision : Type 0 where
  pub identity : Identity
  pub opt_in : String
  pub level : Level
  pub policy : Option GovernancePolicy
  pub mode : Option UpdateMode
  pub refusal : Option Refusal

-- What the walk has read.
pub record Walk : Type 0 where
  pub policies : Option Policies
  pub gated : Bool
  pub owner : Option (String × String)

abbrev pub W : Type 0 → Type 0
W A = Walk → Walk × Res A

abbrev pub pure : {A : Type 0} → A → W A
pure a w = (w, ok a)

abbrev pub next : {A B : Type 0} → Res A → Walk → (A → W B) → Walk × Res B
next (ok a) w f = f a w
next (err e) w f = (w, err e)

infixl 5 ◌>>=◌
abbrev pub ◌>>=◌ : {A B : Type 0} → W A → (A → W B) → W B
◌>>=◌ m f w = next (m w).1 (m w).0 f

abbrev no_identity : Identity
no_identity = ("", ("", ""))

abbrev pub no_decision : Decision
no_decision = record {
  identity = no_identity;
  opt_in = "";
  level = level_none;
  policy = none;
  mode = none;
  refusal = none;
}

abbrev pub refusing : Refusal → Decision
refusing r = record no_decision { refusal = some r }

unfoldable pub managed_by : Decision → GovernancePolicy → String → Decision
managed_by d p kind = elim (mode_for_kind p.types kind) [
  | none ↦ record d { refusal = some kind_not_managed }
  | some mode ↦ record d { policy = some p; mode = some mode }
]

-- A level's annotations, or the refusal of the gate.
abbrev pub LevelRead : Type 0
LevelRead = Consent Texts

-- The Policy opted into and where, or why none is.
abbrev pub OptIn : Type 0
OptIn = Consent (String × Level)

module _ (is_label_value : String → Bool) (s : Subject) (r : Reader) where
  abbrev pub identity_under : Option (String × String) → Identity
  identity_under none =
      (s.namespace, apply_owner_name_override is_label_value ("", "") s.annotations)
  identity_under (some owner) =
      (s.namespace, apply_owner_name_override is_label_value owner s.annotations)

  unfoldable pub read_policies : W Policies
  read_policies w = elim w.policies [
    | some ps ↦ (w, ok ps)
    | none ↦ elim r.policies [
      | ok ps ↦ (record w { policies = some ps }, ok ps)
      | err e ↦ (w, err e)
    ]
  ]

  unfoldable pub read_owner : W (String × String)
  read_owner w = elim w.owner [
    | some owner ↦ (w, ok owner)
    | none ↦ elim r.pod_owner [
      | ok owner ↦ (record w { owner = some owner }, ok owner)
      | err e ↦ (w, err e)
    ]
  ]

  unfoldable pub gate : W (Option Refusal)
  unfolding read_policies
  gate w =
      if w.gated
      then (w, ok none)
      else (do
        ps ← read_policies
        λ w. (record w { gated = true }, ok (gate_refusal ps s.namespace s.labels)))
          w

  abbrev read_past_gate : Option Refusal → W Texts → W LevelRead
  read_past_gate none read = do annotations ← read; pure (given annotations)
  read_past_gate (some refusal) read = pure (refused refusal)

  abbrev workload_read : W Texts
  workload_read = do
    (kind, name) ← read_owner
    λ w. (w, r.workload_annotations s.namespace kind name)

  abbrev no_workload : Option (String × String) → Bool
  no_workload none = false
  no_workload (some (kind, _)) = same_text kind ""

  unfoldable pub workload_annotations : W LevelRead
  unfolding gate read_owner
  workload_annotations w = elim s.origin [
    | pod_template kind name annotations ↦ (w, ok (given annotations))
    | _ ↦
        (if no_workload w.owner
            then pure (given [])
            else (do refusal ← gate; read_past_gate refusal workload_read))
          w
  ]

  unfoldable pub namespace_annotations : W LevelRead
  unfolding gate
  namespace_annotations = do
    refusal ← gate
    read_past_gate refusal (λ w. (w, r.namespace_annotations s.namespace))

  -- One level of the walk, with what the less specific ones come to.
  abbrev at_level : Level → LevelRead → W OptIn → W OptIn
  at_level level (refused refusal) rest = pure (refused refusal)
  at_level level (given annotations) rest =
      let name = value_of policy_annotation annotations in
      if same_text (value_of opt_out_annotation annotations) "true"
      then pure (refused opted_out)
      else if not (same_text name "")
      then pure (given (name, level))
      else rest

  unfoldable pub opt_in : W OptIn
  unfolding workload_annotations namespace_annotations
  opt_in = at_level pod_template_level (given s.annotations) (do
    workload ← workload_annotations
    at_level workload_level workload (do
      namespace ← namespace_annotations
      at_level namespace_level namespace (pure (refused not_opted_in))))

  abbrev settled : Decision → Consent GovernancePolicy → W Decision
  settled d (refused refusal) = pure (record d { refusal = some refusal })
  settled d (given p) = do
    owner ← read_owner
    let (_, (kind, _)) = identity_under (some owner) in pure (managed_by d p kind)

  abbrev opted : OptIn → W Decision
  opted (refused refusal) = pure (refusing refusal)
  opted (given (name, level)) = do
    ps ← read_policies
    settled (record no_decision { opt_in = name; level = level })
        (consent ps name s.namespace s.labels)

  unfoldable pub decide_walk : W Decision
  unfolding opt_in managed_by
  decide_walk = do found ← opt_in; opted found

  abbrev with_identity : Walk → Res Decision → Res Decision
  with_identity w (err e) = err e
  with_identity w (ok d) = elim w.owner [
    | none ↦ ok d
    | some owner ↦ ok (record d { identity = identity_under (some owner) })
  ]

  abbrev started : Option (String × String) → Res Decision
  started owner =
      let walked = decide_walk (record { policies = none; gated = false; owner = owner }) in
      with_identity walked.0 walked.1

  abbrev departed_decision : Identity → String → Policies → Decision
  departed_decision id policy ps =
      let d = record no_decision { identity = id } in
      elim (departed_consent ps policy s.namespace) [
        | refused refusal ↦ record d { refusal = some refusal }
        | given p ↦ let (_, (kind, _)) = id in managed_by d p kind
      ]

  unfoldable pub decide : Res Decision
  unfolding decide_walk managed_by
  decide = elim s.origin [
    | departed id policy ↦ elim r.policies [
      | err e ↦ err e
      | ok ps ↦ ok (departed_decision id policy ps)
    ]
    | pod_template kind name annotations ↦ started (some (kind, name))
    | a_pod true ↦ started none
    | a_pod false ↦
        let (_, (kind, _)) = identity_under (some ("", "")) in
        if same_text kind "" then ok (refusing no_owner) else started (some ("", ""))
  ]
