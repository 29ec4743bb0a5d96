-- ===== src/Ledger/Passes.antt =====
-- internal/ledger/ledger.go: Settle, which takes one pass of a Policy, and RequeueAfter.
use k8s_sustain.Prelude.{
  ℕ, suc, Bool, true, false, ◌||◌, Option, none, some, List, [], ◌∷◌, String, String-discrete,
  lookup, insert, if◌then◌else◌,
}
use k8s_sustain.Prelude.Int.{ℤ, pos, max_ℤ, min_ℤ}
use k8s_sustain.Prelude.Time.{Time, zero_time, is_zero, before, sub, second}
use k8s_sustain.OomWatch.{Identity}
use k8s_sustain.Ledger.{
  base_retry_delay, MemberKey, member_discrete, MemberEntry, Members, Claimed, Ledger,
}
use k8s_sustain.Ledger.Recording.{Result, Event, record_result}
use k8s_sustain.Ledger.Claims.{or_empty, claim, Health, health_of}

-- One pass: per identity, a result per live member.
abbrev pub Pass : Type 0
Pass = List (Identity × List Result)

abbrev pub Events : Type 0
Events = List (MemberKey × Event)

pub record Verdict : Type 0 where
  pub identities : List (Identity × Health)
  pub events : Events

abbrev pub note : MemberKey → Option Event → Events → Events
note m none events = events
note m (some e) events = insert member_discrete m e events

-- The results of one identity: the members, the Warnings and the failures so far.
unfoldable pub record_results : Time → List Result → Members → Events → ℕ → Members × (Events × ℕ)
unfolding record_result
record_results now [] members events n = (members, (events, n))
record_results now (res ∷ results) members events n =
    let (after, (ev, is_failure)) = record_result now res members in
    record_results now results after (if is_failure then note res.member ev events else events)
      (if is_failure then suc n else n)

-- The loop over the pass, with the failures of each identity.
unfoldable pub record_pass :
    Time → Pass → Members → Events → List (Identity × ℕ) → Members × (Events × List (Identity × ℕ))
unfolding record_results
record_pass now [] members events counts = (members, (events, counts))
record_pass now ((id, results) ∷ pass) members events counts =
    let (after, (noted, n)) = record_results now results members events 0 in
    record_pass now pass after noted ((id, n) ∷ counts)

abbrev pub keys_of : List Result → List MemberKey
keys_of [] = []
keys_of (res ∷ results) = res.member ∷ keys_of results

abbrev pub claims_of : Pass → Claimed
claims_of [] = []
claims_of ((id, results) ∷ pass) = (id, keys_of results) ∷ claims_of pass

abbrev pub healths : Ledger → List (Identity × ℕ) → List (Identity × Health)
healths l [] = []
healths l ((id, n) ∷ counts) = (id, record (health_of id l) { attempts = n }) ∷ healths l counts

unfoldable pub settle : Time → String → Pass → Ledger → Ledger × Verdict
unfolding record_pass claim
settle now policy pass l =
    let (members, (events, counts)) = record_pass now pass l.members [] [] in
    let after = claim policy (some (claims_of pass)) (record l { members = members }) in
    (after, record { identities = healths after counts; events = events })

-- When the transient failure of an entry is due; the zero time is none.
abbrev pub retry_of : Option MemberEntry → Time
retry_of none = zero_time
retry_of (some e) = elim e.failure [
  | none ↦ zero_time
  | some f ↦ if f.is_permanent then zero_time else f.due
]

abbrev pub has_retry : Option MemberEntry → Bool
has_retry none = false
has_retry (some e) = elim e.failure [
  | none ↦ false
  | some f ↦ if f.is_permanent then false else true
]

unfoldable pub earliest_of : Members → List MemberKey → Time → Time
earliest_of members [] earliest = earliest
earliest_of members (m ∷ ms) earliest =
    let e = lookup member_discrete m members in
    earliest_of members ms (
      if has_retry e
      then (if is_zero earliest || before (retry_of e) earliest then retry_of e else earliest)
      else earliest)

unfoldable pub earliest_retry : Members → Claimed → Time → Time
unfolding earliest_of
earliest_retry members [] earliest = earliest
earliest_retry members ((_, ms) ∷ ids) earliest =
    earliest_retry members ids (earliest_of members ms earliest)

unfoldable pub requeue_within : Time → String → ℤ → ℤ → Ledger → ℤ
unfolding earliest_retry
requeue_within now policy interval floor l =
    let claimed = or_empty (lookup String-discrete policy l.claims) in
    let earliest = earliest_retry l.members claimed zero_time in
    if is_zero earliest then interval else min_ℤ interval (max_ℤ (sub earliest now) floor)

abbrev pub requeue_after : Time → String → ℤ → Ledger → ℤ
requeue_after now policy interval = requeue_within now policy interval (pos second)

abbrev pub requeue_after_list_failure : Time → String → ℤ → Ledger → ℤ
requeue_after_list_failure now policy interval =
    requeue_within now policy interval (pos base_retry_delay)
