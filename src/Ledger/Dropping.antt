-- ===== src/Ledger/Dropping.antt =====
-- Which members a new set of claims drops (internal/ledger/health.go).
use k8s_sustain.Prelude.{
  ◌≡◌, refl, sym, ap, Bool, true, ◌&&◌, ◌||◌, not, none, List, [], ◌∷◌, String, String-discrete,
  lookup, insert, delete, Distinct, any, is_same, is_same_iff, arith, lookup-delete, if◌then◌else◌,
}
use k8s_sustain.Ledger.{MemberKey, member_discrete, Members, Claimed}
use k8s_sustain.Ledger.Claims.{contains, is_claimed, or_empty, drop_each, drop_claims}

abbrev pub in_claims : MemberKey → Claimed → Bool
in_claims m ids = any (λ (_, members). contains m members) ids

delete-lookup :
    (k m : MemberKey) (members : Members)
    → lookup member_discrete m (delete member_discrete k members)
      ≡ (if is_same member_discrete m k then none else lookup member_discrete m members)
delete-lookup k m members = ground (arith, lookup-delete member_discrete k m members)

-- A drop asks of a member that it is claimed; whether another is, does not matter.
is_same_claimed :
    (m k : MemberKey) (claims : List (String × Claimed))
    → is_same member_discrete m k ≡ true
    → is_claimed k claims ≡ is_claimed m claims
is_same_claimed m k claims h =
    ap (λ x. is_claimed x claims) (sym ((is_same_iff member_discrete m k).0 h))

drop_each-lookup :
    (claims : List (String × Claimed)) (ms : List MemberKey) (members : Members) (m : MemberKey)
    → lookup member_discrete m (drop_each claims ms members) ≡ (
        if contains m ms && not (is_claimed m claims)
        then none
        else lookup member_discrete m members)
unfolding drop_each
drop_each-lookup claims [] members m = refl
drop_each-lookup claims (k ∷ ms) members m = ground (
  arith,
  is_same_claimed m k claims,
  delete-lookup k m members,
  drop_each-lookup claims ms members m,
  drop_each-lookup claims ms (delete member_discrete k members) m,
)

pub drop_claims-lookup :
    (claims : List (String × Claimed)) (ids : Claimed) (members : Members) (m : MemberKey)
    → lookup member_discrete m (drop_claims claims ids members) ≡ (
        if in_claims m ids && not (is_claimed m claims)
        then none
        else lookup member_discrete m members)
unfolding drop_claims
drop_claims-lookup claims [] members m = refl
drop_claims-lookup claims ((id, ms) ∷ ids) members m = ground (
  arith,
  drop_each-lookup claims ms members m,
  drop_claims-lookup claims ids (drop_each claims ms members) m,
)

-- Claiming takes nothing from the other Policies.
pub insert-is_claimed :
    (policy : String) (ids : Claimed) (claims : List (String × Claimed)) (m : MemberKey)
    → is_claimed m claims ≡ true
    → (in_claims m (or_empty (lookup String-discrete policy claims))
        || is_claimed m (insert String-discrete policy ids claims))
      ≡ true
unfolding is_claimed lookup insert
insert-is_claimed policy ids [] m h = ground arith
insert-is_claimed policy ids ((p, c) ∷ claims) m h =
    ground (arith, h, insert-is_claimed policy ids claims m)

pub insert-in_claims :
    (policy : String) (ids : Claimed) (claims : List (String × Claimed)) (m : MemberKey)
    → in_claims m ids ≡ true
    → is_claimed m (insert String-discrete policy ids claims) ≡ true
unfolding is_claimed insert
insert-in_claims policy ids [] m h = ground (arith, h)
insert-in_claims policy ids ((p, c) ∷ claims) m h =
    ground (arith, h, insert-in_claims policy ids claims m)

delete_absent :
    (policy : String) (claims : List (String × Claimed)) (m : MemberKey)
    → lookup String-discrete policy claims ≡ none
    → is_claimed m (delete String-discrete policy claims) ≡ is_claimed m claims
unfolding is_claimed lookup delete
delete_absent policy [] m h = refl
delete_absent policy ((p, c) ∷ claims) m h = ground (arith, h, delete_absent policy claims m)

pub delete-is_claimed :
    (policy : String) (claims : List (String × Claimed)) (m : MemberKey)
    → Distinct String-discrete claims
    → is_claimed m claims ≡ true
    → (in_claims m (or_empty (lookup String-discrete policy claims))
        || is_claimed m (delete String-discrete policy claims))
      ≡ true
unfolding is_claimed lookup delete Distinct
delete-is_claimed policy [] m d h = ground arith
delete-is_claimed policy ((p, c) ∷ claims) m d h =
    ground (arith, h, delete_absent policy claims m, delete-is_claimed policy claims m d.1)
