-- ===== src/Inventory/Agreement.antt =====
-- Which Policy governs an identity (internal/inventory/inventory.go): the one that governs its
-- members, and none where they differ.
use k8s_sustain.Prelude.{
  All-map, ◌≡◌, refl, ap, sym, ◌∙◌, Bool, true, false, ◌&&◌, ◌||◌, not, some, List, [], ◌∷◌, ◌++◌,
  String, String-discrete, length-sort_stable, All, any, is_same_iff, arith, Bool-cases, inl, inr,
  ◌⊎◌, insert_stable, sort_stable, is_filled, if_both,
}
use Prim.Native.Nat.{Ordering}
use Prim.Native.String.{compare}
use mathlib.Core.Path.{subst}
use k8s_sustain.WlrCache.{same_text}
use k8s_sustain.Governance.Consent.{contains}
use k8s_sustain.Inventory.{Member, Identity}
use k8s_sustain.Inventory.Settling.{
  with_policy_of, policies_onto, member_policies, agreed, contributed, has_departed, by_member_name,
  settle,
}
use k8s_sustain.Inventory.Whole.{same_emptiness}

-- A member governed by no Policy, or by one of these.
abbrev pub Within : {Q : Type 0} → List String → Member Q → Type 0
Within ps m = (same_text m.policy "" ≡ true) ⊎ (contains ps m.policy ≡ true)

or_true : (a : Bool) → (a || true) ≡ true
or_true a = ground arith

any-append : (p : String → Bool) (xs ys : List String) → any p (xs ++ ys) ≡ (any p xs || any p ys)
any-append p [] ys = refl
any-append p (x ∷ xs) ys = ground (arith, any-append p xs ys)

any-insert_stable :
    (cmp : String → String → Ordering) (p : String → Bool) (x : String) (xs : List String)
    → any p (insert_stable cmp x xs) ≡ (p x || any p xs)
unfolding insert_stable
any-insert_stable cmp p x [] = refl
any-insert_stable cmp p x (y ∷ ys) = ground (arith, any-insert_stable cmp p x ys)

any-sort_stable :
    (cmp : String → String → Ordering) (p : String → Bool) (xs : List String)
    → any p (sort_stable cmp xs) ≡ any p xs
unfolding sort_stable
any-sort_stable cmp p [] = refl
any-sort_stable cmp p (x ∷ xs) =
    any-insert_stable cmp p x (sort_stable cmp xs) ∙ ap (λ b. p x || b) (any-sort_stable cmp p xs)

pub of_some : {A : Type 0} (a b : A) → some a ≡ some b → a ≡ b
of_some a b h = cc h

same_self : (x : String) → same_text x x ≡ true
same_self x = (is_same_iff String-discrete x x).1 refl

module _ {Q : Type 0} where
  -- What is collected stays.
  with_policy_of-keeps :
      (out : List String) (m : Member Q) (name : String)
      → contains out name ≡ true
      → contains (with_policy_of out m) name ≡ true
  unfolding with_policy_of
  with_policy_of-keeps out m name h =
      if_both (λ (o : List String). contains o name ≡ true)
        (not (same_text m.policy "") && not (contains out m.policy)) _ out
        (any-append (λ y. same_text y name) out (m.policy ∷ [])
          ∙ ap (λ b. b || (same_text m.policy name || false)) h)
        h

  with_policy_of-Within :
      (out : List String) (m : Member Q)
      → (same_text m.policy "" ≡ true) ⊎ (contains (with_policy_of out m) m.policy ≡ true)
  unfolding with_policy_of
  with_policy_of-Within out m = elim (Bool-cases (same_text m.policy "")) [
    | inl e ↦ inl e
    | inr e ↦ elim (Bool-cases (contains out m.policy)) [
      | inl f ↦ inr (rw (e, f) f)
      | inr f ↦ inr (
          rw (e, f)
            (any-append (λ y. same_text y m.policy) out (m.policy ∷ [])
              ∙ ap (λ b. contains out m.policy || (b || false)) (same_self m.policy)
              ∙ or_true (contains out m.policy)))
    ]
  ]

  policies_onto-keeps :
      (ms : List (Member Q)) (out : List String) (name : String)
      → contains out name ≡ true
      → contains (policies_onto ms out) name ≡ true
  unfolding policies_onto
  policies_onto-keeps [] out name h = h
  policies_onto-keeps (m ∷ ms) out name h =
      policies_onto-keeps ms (with_policy_of out m) name (with_policy_of-keeps out m name h)

  policies_onto-Within :
      (ms : List (Member Q)) (out : List String) → All (Within (policies_onto ms out)) ms
  unfolding policies_onto
  policies_onto-Within [] out = tt
  policies_onto-Within (m ∷ ms) out =
      let next = with_policy_of out m in
      (
        elim (with_policy_of-Within out m) [
          | inl e ↦ inl e
          | inr f ↦ inr (policies_onto-keeps ms next m.policy f)
        ],
        policies_onto-Within ms next,
      )

  member_policies-Within : (ms : List (Member Q)) → All (Within (member_policies ms)) ms
  unfolding member_policies
  member_policies-Within ms =
      All-map
        (λ m w. elim w [
          | inl e ↦ inl e
          | inr f ↦
              inr (any-sort_stable compare (λ y. same_text y m.policy) (policies_onto ms []) ∙ f)
        ])
        ms (policies_onto-Within ms [])

  abbrev GovernedBy : String → Member Q → Type 0
  GovernedBy policy m = (same_text m.policy "" ≡ true) ⊎ (same_text policy m.policy ≡ true)

  Within-GovernedBy : (p : String) (m : Member Q) → Within (p ∷ []) m → GovernedBy p m
  Within-GovernedBy p m (inl e) = inl e
  Within-GovernedBy p m (inr f) = inr (ground (arith, f))

  Within-none-GovernedBy : (p : String) (m : Member Q) → Within [] m → GovernedBy p m
  Within-none-GovernedBy p m (inl e) = inl e
  Within-none-GovernedBy p m (inr f) = absurd (ground (arith, f))

module _ {F Q : Type 0} where
  -- The identity is Conflicted and no Policy governs it, or its Policy governs each member that any
  -- does.
  pub IsAgreed : Identity F Q → Type 0
  IsAgreed id =
      ((id.conflicted ≡ true) × (id.policy ≡ ""))
      ⊎ ((id.conflicted ≡ false) × All (GovernedBy id.policy) id.members)

  agreed-IsAgreed :
      (ps : List String) (id : Identity F Q)
      → id.policy ≡ ""
      → id.conflicted ≡ false
      → All (Within ps) id.members
      → IsAgreed (contributed (agreed ps id))
  unfolding IsAgreed
  agreed-IsAgreed [] id unset free w =
      inr (free, All-map (Within-none-GovernedBy id.policy) id.members w)
  agreed-IsAgreed (p ∷ []) id unset free w = inr (free, All-map (Within-GovernedBy p) id.members w)
  agreed-IsAgreed (p ∷ q ∷ ps) id unset free w = inl (refl, unset)

  -- A Policy governs a live identity only when every member that some Policy governs is governed by
  -- it: where members are governed by different Policies, the identity is Conflicted and none does.
  pub settle-IsAgreed :
      (id settled : Identity F Q)
      → id.policy ≡ ""
      → id.conflicted ≡ false
      → is_filled id.members ≡ true
      → settle id ≡ some settled
      → IsAgreed settled
  unfolding settle has_departed
  settle-IsAgreed id settled unset free live h =
      let members = sort_stable by_member_name id.members in
      let same = same_emptiness members id.members (length-sort_stable by_member_name id.members) in
      let sorted : Identity F Q = record id { members = members } in
      let whole = contributed (agreed (member_policies members) sorted) in
      let e : settle id ≡ some whole = rw (same, live) refl in
      subst IsAgreed (of_some whole settled (sym e ∙ h)) (
        agreed-IsAgreed (member_policies members) sorted unset free
          (member_policies-Within members))
