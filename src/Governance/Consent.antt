-- ===== src/Governance/Consent.antt =====
-- internal/governance/policies.go: what the Policies accept. A compiled label selector is what it
-- matches, a parameter of the Policy.
use k8s_sustain.Prelude.{
  Bool, true, false, ◌&&◌, not, Option, none, some, List, String, String-discrete, lookup, any,
  is_filled, if◌then◌else◌,
}
use k8s_sustain.WlrCache.{same_text}
use k8s_sustain.Governance.{
  Texts, UpdateTypes, Refusal, no_policy_selects, policy_missing, namespace_excluded,
  namespace_not_selected, selector_invalid, labels_not_selected,
}

pub record GovernancePolicy : Type 0 where
  pub name : String
  pub namespaces : List String
  pub types : UpdateTypes
  pub exclude_init_containers : Bool
  pub recommend_only : Bool

pub record Compiled : Type 0 where
  pub policy : GovernancePolicy
  -- none when the Policy has no selector
  pub selector : Option (Texts → Bool)
  pub is_invalid : Bool

pub record Policies : Type 0 where
  pub by_name : List (String × Compiled)
  pub excluded : List String

abbrev pub contains : List String → String → Bool
contains xs x = any (λ y. same_text y x) xs

unfoldable pub namespace_refusal : List String → Compiled → String → Option Refusal
namespace_refusal excluded c namespace =
    let allowed = c.policy.namespaces in
    if contains excluded namespace
    then some namespace_excluded
    else if is_filled allowed && not (contains allowed namespace)
    then some namespace_not_selected
    else none

abbrev pub matches : Option (Texts → Bool) → Texts → Bool
matches none labels = true
matches (some m) labels = m labels

unfoldable pub label_refusal : Compiled → Texts → Option Refusal
label_refusal c labels =
    if c.is_invalid
    then some selector_invalid
    else if not (matches c.selector labels)
    then some labels_not_selected
    else none

-- A Policy that consents, or why none does.
pub data Consent {ℓ} (A : Type ℓ) : Type ℓ where
  given : A → Consent A
  refused : Refusal → Consent A

unfoldable pub namespace_consent : Policies → String → String → Consent Compiled
unfolding namespace_refusal String-discrete
namespace_consent ps name namespace = elim (lookup String-discrete name ps.by_name) [
  | none ↦ refused policy_missing
  | some c ↦ elim (namespace_refusal ps.excluded c namespace) [
    | none ↦ given c
    | some r ↦ refused r
  ]
]

unfoldable pub consent : Policies → String → String → Texts → Consent GovernancePolicy
unfolding namespace_consent label_refusal
consent ps name namespace labels = elim (namespace_consent ps name namespace) [
  | refused r ↦ refused r
  | given c ↦ elim (label_refusal c labels) [ none ↦ given c.policy | some r ↦ refused r ]
]

unfoldable pub departed_consent : Policies → String → String → Consent GovernancePolicy
unfolding namespace_consent
departed_consent ps name namespace = elim (namespace_consent ps name namespace) [
  | refused r ↦ refused r
  | given c ↦ if c.is_invalid then refused selector_invalid else given c.policy
]

abbrev is_silent : Option Refusal → Bool
is_silent none = true
is_silent (some r) = false

abbrev is_not_selected : Option Refusal → Bool
is_not_selected (some labels_not_selected) = true
is_not_selected _ = false

-- Whether a Policy may govern, as one whose selector does not parse may.
abbrev pub may_govern : List String → String → Texts → Compiled → Bool
may_govern excluded namespace labels c =
    is_silent (namespace_refusal excluded c namespace)
    && not (is_not_selected (label_refusal c labels))

unfoldable pub gate_refusal : Policies → String → Texts → Option Refusal
unfolding namespace_refusal label_refusal
gate_refusal ps namespace labels =
    if contains ps.excluded namespace
    then some namespace_excluded
    else if any (λ (_, c). may_govern ps.excluded namespace labels c) ps.by_name
    then none
    else some no_policy_selects
