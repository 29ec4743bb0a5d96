-- ===== src/Governance/Gate.antt =====
-- The gate and the consent of one Policy (internal/governance/policies.go).
use k8s_sustain.Prelude.{
  ◌≡◌, Bool, true, false, Option, none, some, List, [], ◌∷◌, String, String-discrete, lookup, any,
  arith, Option-cases, inl, inr,
}
use k8s_sustain.Governance.{Texts, Refusal}
use k8s_sustain.Governance.Consent.{
  Compiled, Policies, Consent, given, refused, consent, gate_refusal, may_govern,
}

-- A gate that refuses finds no Policy that consents.
gate_blocks :
    (entries : List (String × Compiled)) (excluded : List String) (namespace name : String)
    (labels : Texts) (c : Compiled)
    → lookup String-discrete name entries ≡ some c
    → may_govern excluded namespace labels c ≡ true
    → any (λ (_, k). may_govern excluded namespace labels k) entries ≡ true
unfolding lookup
gate_blocks [] excluded namespace name labels c h m = ground (arith, h)
gate_blocks ((k, d) ∷ entries) excluded namespace name labels c h m =
    ground (arith, h, m, gate_blocks entries excluded namespace name labels c)

abbrev is_given : {A : Type 0} → Consent A → Bool
is_given (given a) = true
is_given (refused r) = false

abbrev pub is_open : Option Refusal → Bool
is_open none = true
is_open (some r) = false

pub consent-gate_refusal :
    (ps : Policies) (name namespace : String) (labels : Texts)
    → is_given (consent ps name namespace labels) ≡ true
    → is_open (gate_refusal ps namespace labels) ≡ true
unfolding consent gate_refusal
consent-gate_refusal ps name namespace labels h =
    elim (Option-cases (lookup String-discrete name ps.by_name)) [
      | inl e ↦ ground (arith, h, e)
      | inr (c, e) ↦
          ground (arith, h, e, gate_blocks ps.by_name ps.excluded namespace name labels c e)
    ]
