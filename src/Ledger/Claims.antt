-- ===== src/Ledger/Claims.antt =====
-- internal/ledger/health.go: which members the Policies claim, and the health of an identity.
use k8s_sustain.Prelude.{
  ℕ, ◌+◌, Bool, true, false, ◌||◌, not, Option, none, some, List, [], ◌∷◌, ◌++◌, String,
  String-discrete, lookup, insert, delete, any, is_same, if◌then◌else◌,
}
use k8s_sustain.OomWatch.{Identity, identity_discrete}
use k8s_sustain.WlrCache.{same_text}
use k8s_sustain.Ledger.{
  MemberKey, member_discrete, Step, PodCounts, MemberEntry, Members, Claimed, Ledger,
}
use Prim.Native.Nat.{Ordering}
use Prim.Native.String.{compare}

abbrev pub contains : MemberKey → List MemberKey → Bool
contains m = any (is_same member_discrete m)

unfoldable pub is_claimed : MemberKey → List (String × Claimed) → Bool
is_claimed m claims = any (λ (_, ids). any (λ (_, members). contains m members) ids) claims

abbrev pub or_empty : {A : Type 0} → Option (List A) → List A
or_empty none = []
or_empty (some xs) = xs

-- Deletes each of these members that no Policy claims.
unfoldable pub drop_each : List (String × Claimed) → List MemberKey → Members → Members
unfolding is_claimed
drop_each claims [] members = members
drop_each claims (m ∷ ms) members =
    drop_each claims ms (if is_claimed m claims then members else delete member_discrete m members)

unfoldable pub drop_claims : List (String × Claimed) → Claimed → Members → Members
unfolding drop_each
drop_claims claims [] members = members
drop_claims claims ((_, ms) ∷ ids) members = drop_claims claims ids (drop_each claims ms members)

abbrev pub claims_after :
    String → Option Claimed → List (String × Claimed) → List (String × Claimed)
claims_after policy none claims = delete String-discrete policy claims
claims_after policy (some ids) claims = insert String-discrete policy ids claims

-- `claimLocked`; the nil map is `none`.
unfoldable pub claim : String → Option Claimed → Ledger → Ledger
unfolding drop_claims String-discrete
claim policy now_claimed l =
    let prev = or_empty (lookup String-discrete policy l.claims) in
    let claims = claims_after policy now_claimed l.claims in
    record { members = drop_claims claims prev l.members; claims = claims }

unfoldable pub forget : String → Ledger → Ledger
unfolding claim
forget policy = claim policy none

-- The order of the keys, as `cmp.Or` of their parts.
abbrev pub is_before : MemberKey → MemberKey → Bool
is_before (kind, (namespace, name)) (kind', (namespace', name')) = elim (compare kind kind') [
  | Ordering.lt ↦ true
  | Ordering.gt ↦ false
  | Ordering.eq ↦ elim (compare namespace namespace') [
    | Ordering.lt ↦ true
    | Ordering.gt ↦ false
    | Ordering.eq ↦ elim (compare name name') [ Ordering.lt ↦ true | _ ↦ false ]
  ]
]

unfoldable pub sorted_in : MemberKey → List MemberKey → List MemberKey
sorted_in m [] = m ∷ []
sorted_in m (x ∷ xs) = let rest = sorted_in m xs in if is_before m x then m ∷ x ∷ xs else x ∷ rest

-- The order that `slices.SortFunc` gives keys of which none stands twice.
unfoldable pub sorted : List MemberKey → List MemberKey
unfolding sorted_in
sorted [] = []
sorted (x ∷ xs) = sorted_in x (sorted xs)

unfoldable pub add_missing : List MemberKey → List MemberKey → List MemberKey
add_missing out [] = out
add_missing out (m ∷ ms) = add_missing (if contains m out then out else out ++ m ∷ []) ms

unfoldable pub gather : Identity → List (String × Claimed) → List MemberKey → List MemberKey
unfolding add_missing
gather id [] out = out
gather id ((_, ids) ∷ claims) out =
    gather id claims (add_missing out (or_empty (lookup identity_discrete id ids)))

unfoldable pub claimed_for : Identity → Ledger → List MemberKey
unfolding gather sorted
claimed_for id l = sorted (gather id l.claims [])

pub record Health : Type 0 where
  pub pods : PodCounts
  pub is_measured : Bool
  -- empty unless a member is Blocked
  pub blocked_on : Step
  pub attempts : ℕ

abbrev pub is_blocked : Health → Bool
is_blocked h = not (same_text h.blocked_on "")

abbrev pub no_health : Health
no_health = record {
  pods = record { total = 0; stale = 0 };
  is_measured = false;
  blocked_on = "";
  attempts = 0;
}

-- A member's turn of `healthLocked`.
abbrev pub with_entry : Health → MemberEntry → Health
with_entry h e = record h {
  pods =
      if e.is_measured
      then record { total = h.pods.total + e.pods.total; stale = h.pods.stale + e.pods.stale }
      else h.pods;
  is_measured = e.is_measured || h.is_measured;
  blocked_on =
      if same_text h.blocked_on ""
      then elim e.failure [ none ↦ h.blocked_on | some f ↦ f.step ]
      else h.blocked_on;
}

unfoldable pub health_over : Members → List MemberKey → Health → Health
health_over members [] h = h
health_over members (m ∷ ms) h =
    health_over members ms
      (elim (lookup member_discrete m members) [ none ↦ h | some e ↦ with_entry h e ])

unfoldable pub health_of : Identity → Ledger → Health
unfolding claimed_for health_over
health_of id l = health_over l.members (claimed_for id l) no_health
