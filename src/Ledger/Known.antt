-- ===== src/Ledger/Known.antt =====
-- Which members the ledger remembers (internal/ledger/ledger.go, internal/ledger/health.go).
use k8s_sustain.Prelude.{
  ℕ, suc, ◌≡◌, Bool, true, ◌||◌, Option, none, some, List, [], ◌∷◌, String, String-discrete, lookup,
  Distinct, insert-Distinct, delete-Distinct, is_some, is_same, arith, if◌then◌else◌,
}
use k8s_sustain.Prelude.Time.{Time}
use k8s_sustain.OomWatch.{Identity}
use k8s_sustain.Ledger.{MemberKey, member_discrete, Members, Claimed, Ledger, new_ledger}
use k8s_sustain.Ledger.Recording.{Result, record_result}
use k8s_sustain.Ledger.Entries.{record_result-lookup}
use k8s_sustain.Ledger.Claims.{contains, is_claimed, or_empty, claims_after, claim, forget}
use k8s_sustain.Ledger.Passes.{
  Pass, Events, note, record_results, record_pass, keys_of, claims_of, settle,
}
use k8s_sustain.Ledger.Dropping.{
  in_claims, drop_claims-lookup, insert-is_claimed, insert-in_claims, delete-is_claimed,
}

-- The states of a ledger.
pub data Reach : Ledger → Type 0 where
  fresh : Reach new_ledger
  settled :
      {l : Ledger} (now : Time) (policy : String) (pass : Pass)
      → Reach l
      → Reach (settle now policy pass l).0
  forgotten : {l : Ledger} (policy : String) → Reach l → Reach (forget policy l)

-- The claims that a policy had, or an identity's of this pass, are claims after or drop the member.
abbrev new_claims : Option Claimed → Claimed
new_claims = or_empty

claims_after-is_claimed :
    (policy : String) (now_claimed : Option Claimed) (claims : List (String × Claimed))
    (m : MemberKey)
    → Distinct String-discrete claims
    → (is_claimed m claims || in_claims m (new_claims now_claimed)) ≡ true
    → (in_claims m (or_empty (lookup String-discrete policy claims))
        || is_claimed m (claims_after policy now_claimed claims))
      ≡ true
claims_after-is_claimed policy none claims m d h =
    ground (arith, h, delete-is_claimed policy claims m d)
claims_after-is_claimed policy (some ids) claims m d h =
    ground (arith, h, insert-is_claimed policy ids claims m, insert-in_claims policy ids claims m)

claims_after-Distinct :
    (policy : String) (now_claimed : Option Claimed) (claims : List (String × Claimed))
    → Distinct String-discrete claims
    → Distinct String-discrete (claims_after policy now_claimed claims)
claims_after-Distinct policy none claims d = delete-Distinct String-discrete policy claims d
claims_after-Distinct policy (some ids) claims d =
    insert-Distinct String-discrete policy ids claims d

claim-is_claimed :
    (policy : String) (now_claimed : Option Claimed) (l : Ledger) (m : MemberKey)
    → Distinct String-discrete l.claims
    → (is_some (lookup member_discrete m l.members) ≡ true
        → (is_claimed m l.claims || in_claims m (new_claims now_claimed)) ≡ true)
    → is_some (lookup member_discrete m (claim policy now_claimed l).members) ≡ true
    → is_claimed m (claim policy now_claimed l).claims ≡ true
unfolding claim
claim-is_claimed policy now_claimed l m d known h =
    let prev = or_empty (lookup String-discrete policy l.claims) in
    let claims = claims_after policy now_claimed l.claims in
    ground (
      arith,
      h,
      known,
      drop_claims-lookup claims prev l.members m,
      claims_after-is_claimed policy now_claimed l.claims m d,
    )

abbrev has : MemberKey → Members → Bool
has m members = is_some (lookup member_discrete m members)

record_result-has :
    (now : Time) (res : Result) (members : Members) (m : MemberKey)
    → has m (record_result now res members).0 ≡ true
    → (is_same member_discrete m res.member || has m members) ≡ true
record_result-has now res members m h = ground (arith, h, record_result-lookup now res members m)

record_results-has :
    (now : Time) (results : List Result) (members : Members) (events : Events) (n : ℕ)
    (m : MemberKey)
    → has m (record_results now results members events n).0 ≡ true
    → (contains m (keys_of results) || has m members) ≡ true
unfolding record_results
record_results-has now [] members events n m h = h
record_results-has now (res ∷ results) members events n m h =
    let (after, (ev, is_failure)) = record_result now res members in
    let rest =
      record_results-has now results after
        (if is_failure then note res.member ev events else events) (if is_failure then suc n else n)
        m h in
    ground (arith, rest, record_result-has now res members m)

record_pass-has :
    (now : Time) (pass : Pass) (members : Members) (events : Events) (counts : List (Identity × ℕ))
    (m : MemberKey)
    → has m (record_pass now pass members events counts).0 ≡ true
    → (in_claims m (claims_of pass) || has m members) ≡ true
unfolding record_pass
record_pass-has now [] members events counts m h = h
record_pass-has now ((id, results) ∷ pass) members events counts m h =
    let (after, (noted, n)) = record_results now results members events 0 in
    let rest = record_pass-has now pass after noted ((id, n) ∷ counts) m h in
    ground (arith, rest, record_results-has now results members events 0 m)

Reach-Distinct : {l : Ledger} → Reach l → Distinct String-discrete l.claims
unfolding claim settle forget Distinct
Reach-Distinct fresh = tt
Reach-Distinct (settled {l = l} now policy pass r) =
    claims_after-Distinct policy (some (claims_of pass)) l.claims (Reach-Distinct r)
Reach-Distinct (forgotten {l = l} policy r) =
    claims_after-Distinct policy none l.claims (Reach-Distinct r)

known_is_claimed :
    {l : Ledger} (m : MemberKey) → Reach l → has m l.members ≡ true → is_claimed m l.claims ≡ true
unfolding settle forget lookup
known_is_claimed m fresh h = ground (arith, h)
known_is_claimed m (settled {l = l} now policy pass r) h =
    let after = (record_pass now pass l.members [] []).0 in
    claim-is_claimed policy (some (claims_of pass)) (record l { members = after }) m
      (Reach-Distinct r)
      (λ e. ground (arith, record_pass-has now pass l.members [] [] m e, known_is_claimed m r)) h
known_is_claimed m (forgotten {l = l} policy r) h =
    claim-is_claimed policy none l m (Reach-Distinct r)
      (λ e. ground (arith, known_is_claimed m r e)) h

-- The ledger never remembers a member that no Policy claims: whatever passes and deletions of
-- Policies have come, a member with an entry is among the members that a Policy claims.
pub Reach-is_claimed :
    (l : Ledger) (m : MemberKey)
    → Reach l
    → is_some (lookup member_discrete m l.members) ≡ true
    → is_claimed m l.claims ≡ true
Reach-is_claimed l m r h = known_is_claimed m r h
