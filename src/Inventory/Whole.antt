-- ===== src/Inventory/Whole.antt =====
-- Every identity that a snapshot settles has a member or a WorkloadRecommendation
-- (internal/inventory/inventory.go), so none is read through a nil pointer.
use k8s_sustain.Prelude.{
  ◌≡◌, refl, Bool, true, false, ◌||◌, not, Option, none, some, List, [], ◌∷◌, ◌++◌, String, insert,
  All, is_some, is_filled, arith, if_both, ite_both, Bool-cases, inl, inr, sort_stable, length,
  length-sort_stable,
}
use k8s_sustain.Prelude.Time.{Time}
use k8s_sustain.OomWatch.{Identity as Key, identity_discrete}
use k8s_sustain.WlrCache.{same_text, Object}
use k8s_sustain.Governance.Consent.{Policies}
use k8s_sustain.Governance.Walk.{Res, ok, err, Reader, decide}
use k8s_sustain.Inventory.{Member, Identity, is_empty}
use k8s_sustain.Inventory.Settling.{has_departed, settle, departed_from, by_member_name, dedupe}
use k8s_sustain.Inventory.Building.{
  Sources, Options, supported_kinds, scopes_of, reader_of, Builder, Listed, items, no_match,
  not_listed, WorkloadListed, PodListed, then_with, visit_each, list_each, add_member, identity,
  visit_workload, visit_template, visit_pod, Template, template_subject, pod_subject,
  departed_subject, add_template, add_pod, add_governed, add_recommendation, visit_recommendation,
  in_scope, is_no_owner, policy_name, is_left_out,
}
use k8s_sustain.Inventory.Taking.{
  Snapshot, and_settled, taken, settle_each, snapshot, add_kind, add_kinds, built, snapped, take,
}

-- What holds of a result, if there is one.
abbrev pub Kept : {B : Type 0} → (B → Type 0) → Res B → Type 0
Kept P (err e) = Unit {0}
Kept P (ok b) = P b

then_with-Kept :
    {B C : Type 0} (P : B → Type 0) (R : C → Type 0) (r : Res C) (f : C → Res B)
    → Kept R r
    → ((c : C) → R c → Kept P (f c))
    → Kept P (then_with r f)
then_with-Kept P R (err e) f h k = tt
then_with-Kept P R (ok c) f h k = k c h

-- Of a result of which nothing is known.
read-Kept :
    {B C : Type 0} (P : B → Type 0) (r : Res C) (f : C → Res B)
    → ((c : C) → Kept P (f c))
    → Kept P (then_with r f)
read-Kept P (err e) f k = tt
read-Kept P (ok c) f k = k c

module _ {A B : Type 0} (P : B → Type 0) where
  visit_each-Kept :
      (visit : A → B → Res B)
      → ((a : A) (b : B) → P b → Kept P (visit a b))
      → (xs : List A) (b : B) → P b
      → Kept P (visit_each visit xs b)
  unfolding visit_each
  visit_each-Kept visit h [] b p = p
  visit_each-Kept visit h (a ∷ xs) b p =
      then_with-Kept P P (visit a b) (visit_each visit xs) (h a b p) (visit_each-Kept visit h xs)

  list_each-Kept :
      (listing : String → Listed A) (visit : A → B → Res B)
      → ((a : A) (b : B) → P b → Kept P (visit a b))
      → (scopes : List String) (b : B) → P b
      → Kept P (list_each listing visit scopes b)
  unfolding list_each
  list_each-Kept listing visit h [] b p = p
  list_each-Kept listing visit h (ns ∷ scopes) b p =
      elim (listing ns)
        as (λ l. Kept P (elim l [
          | no_match ↦ ok b
          | not_listed e ↦ err e
          | items xs ↦ then_with (visit_each visit xs b) (list_each listing visit scopes)
        ])) [
          | no_match ↦ p
          | not_listed e ↦ tt
          | items xs ↦
              then_with-Kept P P (visit_each visit xs b) (list_each listing visit scopes)
                (visit_each-Kept visit h xs b p) (list_each-Kept listing visit h scopes)
        ]

All-insert :
    {V : Type 0} (P : V → Type 0) (k : Key) (v : V) (m : List (Key × V))
    → P v
    → All (λ e. P e.1) m
    → All (λ e. P e.1) (insert identity_discrete k v m)
unfolding insert
All-insert P k v [] p _ = (p, tt)
All-insert P k v ((j, w) ∷ m) p (q, qs) =
    ite_both (All (λ e. P e.1)) (identity_discrete k j) ((k, v) ∷ m)
      ((j, w) ∷ insert identity_discrete k v m) (λ _. (p, qs)) (λ _. (q, All-insert P k v m p qs))

is_filled-append_one : {A : Type 0} (xs : List A) (a : A) → is_filled (xs ++ a ∷ []) ≡ true
is_filled-append_one [] a = refl
is_filled-append_one (x ∷ xs) a = refl

-- A list and one as long are both empty or neither is.
pub same_emptiness :
    {A : Type 0} (xs ys : List A) → length xs ≡ length ys → is_empty xs ≡ not (is_filled ys)
same_emptiness [] [] h = refl
same_emptiness [] (y ∷ ys) h = absurd (omega (arith, h))
same_emptiness (x ∷ xs) [] h = absurd (omega (arith, h))
same_emptiness (x ∷ xs) (y ∷ ys) h = refl

rest_known : (a b : Bool) → a ≡ false → (a || b) ≡ true → b ≡ true
rest_known a b e h = ground (arith, e, h)

or_true : (a : Bool) → (a || true) ≡ true
or_true a = ground arith

both_some :
    {F Q : Type 0} (a : Option (Identity F Q)) (b : Option (List (Identity F Q)))
    → is_some a ≡ true
    → is_some b ≡ true
    → is_some (and_settled a b) ≡ true
both_some none b h k = ground (arith, h)
both_some (some a) none h k = ground (arith, k)
both_some (some a) (some b) h k = refl

taken-some :
    {F Q : Type 0} (at : Time) (o : Option (List (Identity F Q)))
    → is_some o ≡ true
    → is_some (taken at o) ≡ true
taken-some at none h = ground (arith, h)
taken-some at (some ids) h = refl

module _ {F Q : Type 0} where
  IsKnown : Identity F Q → Type 0
  IsKnown id = (is_filled id.members || is_some id.recommendation) ≡ true

  AllKnown : Builder F Q → Type 0
  AllKnown b = All (λ e. IsKnown e.1) b

  add_member-AllKnown :
      (key : Key) (m : Member Q) (b : Builder F Q) → AllKnown b → AllKnown (add_member key m b)
  unfolding add_member AllKnown IsKnown
  add_member-AllKnown key m b h =
      let id = identity key b in
      All-insert IsKnown key (record id { members = id.members ++ m ∷ [] }) b
        (rw (is_filled-append_one id.members m) refl) h

  departed_from-some :
      (id : Identity F Q) (o : Option (Object F Q))
      → is_some o ≡ true
      → is_some (departed_from id o) ≡ true
  departed_from-some id none h = ground (arith, h)
  departed_from-some id (some wlr) h = refl

  settle-some : (id : Identity F Q) → IsKnown id → is_some (settle id) ≡ true
  unfolding settle IsKnown has_departed
  settle-some id h =
      let members = sort_stable by_member_name id.members in
      let same = same_emptiness members id.members (length-sort_stable by_member_name id.members) in
      elim (Bool-cases (is_filled id.members)) [
        | inl e ↦ rw (same, e) refl
        | inr e ↦
            rw (same, e)
              (departed_from-some (record id { members = members }) id.recommendation
                (rest_known _ _ e h))
      ]

  settle_each-some : (b : Builder F Q) → AllKnown b → is_some (settle_each b) ≡ true
  unfolding settle_each AllKnown
  settle_each-some [] h = refl
  settle_each-some ((key, id) ∷ b) (k, h) =
      both_some (settle id) (settle_each b) (settle-some id k) (settle_each-some b h)

  snapshot-some : (at : Time) (b : Builder F Q) → AllKnown b → is_some (snapshot at b) ≡ true
  unfolding snapshot
  snapshot-some at b h = taken-some at (settle_each b) (settle_each-some b h)

  KeptKnown : Res (Builder F Q) → Type 0
  KeptKnown res = Kept AllKnown res

  -- A snapshot that is there.
  pub IsWhole : Res (Option (Snapshot F Q)) → Type 0
  IsWhole res = Kept (λ o. is_some o ≡ true) res

  read-KeptKnown :
      {C : Type 0} (res : Res C) (f : C → Res (Builder F Q))
      → ((c : C) → KeptKnown (f c))
      → KeptKnown (then_with res f)
  unfolding KeptKnown
  read-KeptKnown res f k = read-Kept AllKnown res f k

module _ {F Q : Type 0} (is_label_value : String → Bool) (r : Reader) where
  visit_template-KeptKnown :
      (kind : String) (obj : WorkloadListed Q) (tmpl : Option (Template Q)) (b : Builder F Q)
      → AllKnown b
      → KeptKnown (visit_template is_label_value r kind obj tmpl b)
  unfolding KeptKnown
  visit_template-KeptKnown kind obj none b h = h
  visit_template-KeptKnown kind obj (some tmpl) b h =
      read-KeptKnown (decide is_label_value (template_subject kind obj tmpl) r)
        (add_template obj tmpl b) (λ d. add_member-AllKnown d.identity _ b h)

  visit_workload-KeptKnown :
      (kind : String) (obj : WorkloadListed Q) (b : Builder F Q)
      → AllKnown b
      → KeptKnown (visit_workload is_label_value r kind obj b)
  unfolding visit_workload KeptKnown
  visit_workload-KeptKnown kind obj b h =
      if_both KeptKnown (is_left_out obj.job) (ok b) _ h
        (visit_template-KeptKnown kind obj obj.template b h)

  visit_pod-KeptKnown :
      (pod : PodListed Q) (b : Builder F Q)
      → AllKnown b
      → KeptKnown (visit_pod is_label_value r pod b)
  unfolding visit_pod KeptKnown
  visit_pod-KeptKnown pod b h = if_both KeptKnown pod.has_controller (ok b) _ h (
      read-KeptKnown (decide is_label_value (pod_subject pod) r) (add_pod pod b) (λ d.
        if_both KeptKnown (is_no_owner d.refusal) (ok b) _ h
          (add_member-AllKnown d.identity _ b h)))

  visit_recommendation-KeptKnown :
      (opts : Options) (wlr : Object F Q) (b : Builder F Q)
      → AllKnown b
      → KeptKnown (visit_recommendation is_label_value r opts wlr b)
  unfolding visit_recommendation add_recommendation KeptKnown AllKnown IsKnown
  visit_recommendation-KeptKnown opts wlr b h =
      let key : Key = (wlr.ref.namespace, (wlr.ref.kind, wlr.ref.name)) in
      let id : Identity F Q = record (identity key b) { recommendation = some wlr } in
      let known = or_true (is_filled id.members) in
      if_both KeptKnown (not (in_scope opts wlr.ref.kind)) (ok b) _ h (
        if_both KeptKnown (not (has_departed id)) _ _ (All-insert IsKnown key id b known h) (
          read-KeptKnown (decide is_label_value (departed_subject key wlr.policy) r)
            (add_governed key id b)
            (λ d. All-insert IsKnown key (record id { policy = policy_name d }) b known h)))

module _ {F Q : Type 0} (is_label_value : String → Bool) (src : Sources F Q) where
  add_kind-KeptKnown :
      (r : Reader) (scopes : List String) (kind : String) (b : Builder F Q)
      → AllKnown b
      → KeptKnown (add_kind is_label_value src r scopes kind b)
  unfolding KeptKnown
  add_kind-KeptKnown r scopes kind b h =
      if_both (Kept AllKnown) (same_text kind "Pod") _ _
        (list_each-Kept AllKnown src.pods (visit_pod is_label_value r)
          (visit_pod-KeptKnown is_label_value r) scopes b h)
        (list_each-Kept AllKnown (src.workloads kind) (visit_workload is_label_value r kind)
          (visit_workload-KeptKnown is_label_value r kind) scopes b h)

  add_kinds-KeptKnown :
      (r : Reader) (opts : Options) (scopes kinds : List String) (b : Builder F Q)
      → AllKnown b
      → KeptKnown (add_kinds is_label_value src r opts scopes kinds b)
  unfolding add_kinds KeptKnown
  add_kinds-KeptKnown r opts scopes [] b h = h
  add_kinds-KeptKnown r opts scopes (kind ∷ kinds) b h =
      then_with-Kept AllKnown AllKnown _ (add_kinds is_label_value src r opts scopes kinds)
        (if_both (Kept AllKnown) (in_scope opts kind) _ (ok b)
          (add_kind-KeptKnown r scopes kind b h) h)
        (add_kinds-KeptKnown r opts scopes kinds)

  snapped-IsWhole :
      (now : Time) (res : Res (Builder F Q)) → KeptKnown res → IsWhole (snapped now res)
  unfolding IsWhole KeptKnown
  snapped-IsWhole now (err e) h = tt
  snapped-IsWhole now (ok b) h = snapshot-some now b h

  built-KeptKnown : (opts : Options) (ps : Policies) → KeptKnown (built is_label_value src opts ps)
  unfolding built KeptKnown AllKnown
  built-KeptKnown opts ps =
      let r = reader_of ps src.namespace_annotations in
      let scopes = scopes_of (dedupe opts.namespaces) in
      then_with-Kept AllKnown AllKnown _ _ (add_kinds-KeptKnown r opts scopes supported_kinds [] tt)
        (list_each-Kept AllKnown src.recommendations (visit_recommendation is_label_value r opts)
          (visit_recommendation-KeptKnown is_label_value r opts) scopes)

  -- Whatever the cluster lists, a snapshot never reads a WorkloadRecommendation through a nil
  -- pointer: it ends in the error of a read, or in its identities.
  pub take-IsWhole : (opts : Options) (now : Time) → IsWhole (take is_label_value src opts now)
  unfolding take IsWhole
  take-IsWhole opts now =
      read-Kept (λ o. is_some o ≡ true) src.policies _
        (λ ps. snapped-IsWhole now _ (built-KeptKnown opts ps))
