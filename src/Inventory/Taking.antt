-- ===== src/Inventory/Taking.antt =====
-- internal/inventory/inventory.go: Take and TakeForPolicy, and what a snapshot answers.
use Prim.Native.Nat.{Ordering}
use Prim.Native.String.{compare}
use k8s_sustain.Prelude.{
  Bool, not, Option, none, some, List, [], ◌∷◌, String, String-discrete, sort_stable, is_some,
  is_filled, if◌then◌else◌,
}
use k8s_sustain.Prelude.Time.{Time}
use k8s_sustain.OomWatch.{Identity as Key, identity_discrete}
use k8s_sustain.WlrCache.{same_text}
use k8s_sustain.Governance.{UpdateTypes, mode_for_kind}
use k8s_sustain.Governance.Consent.{Policies}
use k8s_sustain.Governance.Walk.{Res, ok, err, Reader}
use k8s_sustain.Inventory.{Identity}
use k8s_sustain.Inventory.Settling.{dedupe, settle}
use k8s_sustain.Inventory.Building.{
  supported_kinds, Sources, Options, Builder, scopes_of, in_scope, then_with, list_each, reader_of,
  visit_workload, visit_pod, visit_recommendation,
}

pub record Snapshot (F Q : Type 0) : Type 0 where
  pub identities : List (Identity F Q)
  pub taken_at : Time

-- `CompareIdentity`
abbrev pub or_else : Ordering → Ordering → Ordering
or_else Ordering.eq o = o
or_else o _ = o

unfoldable pub compare_identity : Key → Key → Ordering
compare_identity (ns, (kind, name)) (ns', (kind', name')) =
    or_else (compare ns ns') (or_else (compare kind kind') (compare name name'))

module _ {F Q : Type 0} where
  abbrev pub and_settled :
      Option (Identity F Q) → Option (List (Identity F Q)) → Option (List (Identity F Q))
  and_settled none rest = none
  and_settled (some id) none = none
  and_settled (some id) (some ids) = some (id ∷ ids)

  unfoldable pub settle_each : Builder F Q → Option (List (Identity F Q))
  unfolding settle
  settle_each [] = some []
  settle_each ((key, id) ∷ b) = and_settled (settle id) (settle_each b)

  abbrev by_key_order : Identity F Q → Identity F Q → Ordering
  by_key_order a b = compare_identity a.key b.key

  abbrev pub taken : Time → Option (List (Identity F Q)) → Option (Snapshot F Q)
  taken at none = none
  taken at (some ids) = some (record { identities = sort_stable by_key_order ids; taken_at = at })

  -- `snapshot`, with the instant that it is dated by.
  unfoldable pub snapshot : Time → Builder F Q → Option (Snapshot F Q)
  unfolding settle_each compare_identity sort_stable
  snapshot at b = taken at (settle_each b)

  abbrev pub snapped : Time → Res (Builder F Q) → Res (Option (Snapshot F Q))
  snapped now (err e) = err e
  snapped now (ok b) = ok (snapshot now b)

  unfoldable pub lookup_identity : Key → List (Identity F Q) → Option (Identity F Q)
  lookup_identity key [] = none
  lookup_identity key (id ∷ ids) =
      let rest = lookup_identity key ids in
      elim (identity_discrete key id.key) [ yes _ ↦ some id | no _ ↦ rest ]

  unfoldable pub governed_by : String → List (Identity F Q) → List (Identity F Q)
  unfolding String-discrete
  governed_by policy [] = []
  governed_by policy (id ∷ ids) =
      let rest = governed_by policy ids in if same_text id.policy policy then id ∷ rest else rest

module _ {F Q : Type 0} (is_label_value : String → Bool) (src : Sources F Q) where
  abbrev pub add_kind : Reader → List String → String → Builder F Q → Res (Builder F Q)
  add_kind r scopes kind b =
      if same_text kind "Pod"
      then list_each src.pods (visit_pod is_label_value r) scopes b
      else list_each (src.workloads kind) (visit_workload is_label_value r kind) scopes b

  unfoldable pub add_kinds :
      Reader → Options → List String → List String → Builder F Q → Res (Builder F Q)
  unfolding list_each in_scope visit_pod visit_workload String-discrete
  add_kinds r opts scopes [] b = ok b
  add_kinds r opts scopes (kind ∷ kinds) b =
      then_with (if in_scope opts kind then add_kind r scopes kind b else ok b)
        (add_kinds r opts scopes kinds)

  -- The builder once all is read.
  unfoldable pub built : Options → Policies → Res (Builder F Q)
  unfolding add_kinds reader_of visit_recommendation dedupe
  built opts ps =
      let r = reader_of ps src.namespace_annotations in
      let scopes = scopes_of (dedupe opts.namespaces) in
      then_with (add_kinds r opts scopes supported_kinds [])
        (list_each src.recommendations (visit_recommendation is_label_value r opts) scopes)

  -- A snapshot that is none is a panic.
  unfoldable pub take : Options → Time → Res (Option (Snapshot F Q))
  unfolding built snapshot
  take opts now = then_with src.policies (λ ps. snapped now (built opts ps))

  unfoldable pub managed_kinds : UpdateTypes → List String → List String
  unfolding mode_for_kind
  managed_kinds types [] = []
  managed_kinds types (kind ∷ kinds) =
      let rest = managed_kinds types kinds in
      if is_some (mode_for_kind types kind) then kind ∷ rest else rest

  -- The selector's namespaces and the kinds that the Policy manages.
  unfoldable pub take_for_policy : List String → UpdateTypes → Time → Res (Option (Snapshot F Q))
  unfolding managed_kinds take
  take_for_policy namespaces types now =
      let kinds = managed_kinds types supported_kinds in
      if not (is_filled kinds)
      then ok (some (record { identities = []; taken_at = now }))
      else take (record { namespaces = namespaces; kinds = kinds }) now
