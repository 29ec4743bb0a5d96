-- ===== src/Ledger/Entries.antt =====
-- What a result makes of the members' entries (internal/ledger/ledger.go).
use k8s_sustain.Prelude.{
  ◌≡◌, refl, true, false, Option, none, some, lookup, is_same, ap, arith, lookup-insert,
  lookup-delete, insert, if◌then◌else◌, ite,
}
use k8s_sustain.Prelude.Time.{Time}
use k8s_sustain.Ledger.{
  MemberKey, member_discrete, ResultKind, done, idle, uncounted, skipped, failed, MemberEntry,
  Members,
}
use k8s_sustain.Ledger.Recording.{
  Result, or_new, entry_of, failure_after, fail, record_result, keep_measured, members_after,
}

-- An entry after a result of its member: a failed one is remembered, every other but a skipped one
-- clears the failure, and what is neither counted nor failing is dropped.
abbrev pub if_measured : MemberEntry → Option MemberEntry
if_measured e = if e.is_measured then some e else none

abbrev pub entry_after : ResultKind → Time → Result → Option MemberEntry → Option MemberEntry
entry_after kind now res o =
    let cleared = record (or_new o) { failure = none } in
    elim kind [
      | skipped ↦ o
      | failed ↦ some (record (or_new o) {
        failure = some (failure_after now (or_new o).failure res.step res.err);
      })
      | done ↦ some (record cleared { pods = res.pods; is_measured = true })
      | idle ↦ none
      | uncounted ↦ if_measured cleared
    ]

insert-lookup :
    (k m : MemberKey) (e : MemberEntry) (members : Members)
    → lookup member_discrete m (insert member_discrete k e members)
      ≡ (if is_same member_discrete m k then some e else lookup member_discrete m members)
insert-lookup k m e members = ground (arith, lookup-insert member_discrete k m e members)

keep_measured-lookup :
    (k m : MemberKey) (e : MemberEntry) (members : Members)
    → lookup member_discrete m (keep_measured k e members)
      ≡ (if is_same member_discrete m k then if_measured e else lookup member_discrete m members)
keep_measured-lookup k m e members =
    ground (
      arith,
      lookup-insert member_discrete k m e members,
      lookup-delete member_discrete k m members,
    )

same_entry :
    (m k : MemberKey) (members : Members)
    → lookup member_discrete m members ≡ (
        if is_same member_discrete m k
        then lookup member_discrete k members
        else lookup member_discrete m members)
same_entry m k members =
    elim (member_discrete m k)
      as (λ d. lookup member_discrete m members ≡ (
        if ite d true false
        then lookup member_discrete k members
        else lookup member_discrete m members)) [
          | yes p ↦ ap (λ x. lookup member_discrete x members) p
          | no n ↦ refl
        ]

members_after-lookup :
    (kind : ResultKind) (now : Time) (res : Result) (members : Members) (m : MemberKey)
    → lookup member_discrete m (members_after kind now res members) ≡ (
        if is_same member_discrete m res.member
        then entry_after kind now res (lookup member_discrete res.member members)
        else lookup member_discrete m members)
unfolding members_after fail entry_of
members_after-lookup skipped now res members m = same_entry m res.member members
members_after-lookup failed now res members m =
    let e = or_new (lookup member_discrete res.member members) in
    insert-lookup res.member m
      (record e { failure = some (failure_after now e.failure res.step res.err) }) members
members_after-lookup done now res members m =
    insert-lookup res.member m (record { pods = res.pods; is_measured = true; failure = none })
      members
members_after-lookup idle now res members m =
    ground (arith, lookup-delete member_discrete res.member m members)
members_after-lookup uncounted now res members m =
    keep_measured-lookup res.member m
      (record (or_new (lookup member_discrete res.member members)) { failure = none }) members

-- A result changes its own member's entry only. A failed one is remembered there; every other but a
-- skipped one clears the failure; done sets the pod counts, idle drops the entry, and uncounted
-- keeps one that has counts.
pub record_result-lookup :
    (now : Time) (res : Result) (members : Members) (m : MemberKey)
    → lookup member_discrete m (record_result now res members).0 ≡ (
        if is_same member_discrete m res.member
        then entry_after res.kind now res (lookup member_discrete res.member members)
        else lookup member_discrete m members)
unfolding record_result
record_result-lookup now res members m = members_after-lookup res.kind now res members m
