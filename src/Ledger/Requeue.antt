-- ===== src/Ledger/Requeue.antt =====
-- When the controller runs the next pass of a Policy (internal/ledger/ledger.go, requeueAfter).
use k8s_sustain.Prelude.{
  ℕ, suc, ◌≤◌, ◌≡◌, sym, ap, ◌∙◌, Bool, true, false, ◌&&◌, ◌||◌, not, Option, none, some, List, [],
  ◌∷◌, String, String-discrete, lookup, is_same_iff, arith, leb, if◌then◌else◌,
}
use k8s_sustain.Prelude.Int.{ℤ, leb_ℤ, max_ℤ, min_ℤ}
use k8s_sustain.Prelude.Time.{Time, zero_time, is_zero, before, add, sub}
use k8s_sustain.OomWatch.{Identity}
use k8s_sustain.Ledger.{
  MemberKey, member_discrete, MemberEntry, Members, Claimed, Ledger, Failure, Step,
}
use k8s_sustain.Ledger.Errors.{GoError}
use native.Mathlib.Nat.{one-le-pow}
use k8s_sustain.Ledger.Claims.{contains, or_empty, claims_after, claim, forget}
use k8s_sustain.Ledger.Recording.{
  Result, failure_after, shift, attempts_of, or_new, delay, record_result,
}
use k8s_sustain.Ledger.Entries.{entry_after, record_result-lookup}
use k8s_sustain.Ledger.Dropping.{in_claims, drop_claims-lookup}
use k8s_sustain.Ledger.Known.{Reach, fresh, settled, forgotten}
use k8s_sustain.Ledger.Passes.{
  retry_of, has_retry, earliest_of, earliest_retry, requeue_within, settle, Pass, Events, note,
  record_results, record_pass, claims_of,
}

-- A time that is set, and no later than another.
abbrev pub is_by : Time → Time → Bool
is_by t u = not (is_zero t) && leb t u

abbrev due_of : Members → MemberKey → Time
due_of members m = retry_of (lookup member_discrete m members)

abbrev waits : Members → MemberKey → Bool
waits members m = has_retry (lookup member_discrete m members)

-- Every retry that is due at all is due at a time that is set.
abbrev Dues : Members → Type 0
Dues members = (m : MemberKey) → waits members m ≡ true → is_zero (due_of members m) ≡ false

-- A member's turn of the scan.
abbrev turn : Members → MemberKey → Time → Time
turn members m t =
    if waits members m
    then (if is_zero t || before (due_of members m) t then due_of members m else t)
    else t

module _ (members : Members) (dues : Dues members) where
  earliest_of-below :
      (ms : List MemberKey) (t u : Time)
      → is_by t u ≡ true
      → is_by (earliest_of members ms t) u ≡ true
  unfolding earliest_of
  earliest_of-below [] t u h = h
  earliest_of-below (m ∷ ms) t u h =
      earliest_of-below ms (turn members m t) u (ground (arith, h, dues m))

  earliest_of-found :
      (ms : List MemberKey) (t : Time) (m : MemberKey)
      → waits members m ≡ true
      → contains m ms ≡ true
      → is_by (earliest_of members ms t) (due_of members m) ≡ true
  unfolding earliest_of
  earliest_of-found [] t m w h = ground (arith, h)
  earliest_of-found (k ∷ ms) t m w h = elim (member_discrete m k) [
    | yes p ↦
        let same : due_of members k ≡ due_of members m = ap (due_of members) (sym p) in
        let waiting : waits members k ≡ true = ap (waits members) (sym p) ∙ w in
        earliest_of-below ms (turn members k t) (due_of members m)
          (ground (arith, same, waiting, dues k))
    | no n ↦
        earliest_of-found ms (turn members k t) m w
          (ground (arith, h, is_same_iff member_discrete m k))
  ]

  earliest_retry-below :
      (ids : Claimed) (t u : Time)
      → is_by t u ≡ true
      → is_by (earliest_retry members ids t) u ≡ true
  unfolding earliest_retry
  earliest_retry-below [] t u h = h
  earliest_retry-below ((_, ms) ∷ ids) t u h =
      earliest_retry-below ids (earliest_of members ms t) u (earliest_of-below ms t u h)

  earliest_retry-found :
      (ids : Claimed) (t : Time) (m : MemberKey)
      → waits members m ≡ true
      → in_claims m ids ≡ true
      → is_by (earliest_retry members ids t) (due_of members m) ≡ true
  unfolding earliest_retry
  earliest_retry-found [] t m w h = ground (arith, h)
  earliest_retry-found ((_, ms) ∷ ids) t m w h = ground (
    arith,
    h,
    earliest_of-found ms t m w,
    earliest_retry-below ids (earliest_of members ms t) (due_of members m),
    earliest_retry-found ids (earliest_of members ms t) m w,
  )

failure_after-due :
    (now : Time) (prev : Option Failure) (step : Step) (err : Option GoError)
    → (failure_after now prev step err).is_permanent ≡ false
    → is_zero (failure_after now prev step err).due ≡ false
unfolding failure_after delay add
failure_after-due now prev step err h =
    ground (arith, h, one-le-pow (shift (attempts_of prev)) 2 (omega arith))

entry_after-due :
    (now : Time) (res : Result) (o : Option MemberEntry)
    → (has_retry o ≡ true → is_zero (retry_of o) ≡ false)
    → has_retry (entry_after res.kind now res o) ≡ true
    → is_zero (retry_of (entry_after res.kind now res o)) ≡ false
entry_after-due now res o dues h =
    ground (arith, h, dues, failure_after-due now (or_new o).failure res.step res.err)

record_result-Dues :
    (now : Time) (res : Result) (members : Members)
    → Dues members
    → Dues (record_result now res members).0
record_result-Dues now res members dues m =
    let o = lookup member_discrete res.member members in
    ground (
      arith,
      record_result-lookup now res members m,
      dues m,
      entry_after-due now res o (dues res.member),
    )

record_results-Dues :
    (now : Time) (results : List Result) (members : Members) (events : Events) (n : ℕ)
    → Dues members
    → Dues (record_results now results members events n).0
unfolding record_results
record_results-Dues now [] members events n dues = dues
record_results-Dues now (res ∷ results) members events n dues =
    let (after, (ev, is_failure)) = record_result now res members in
    record_results-Dues now results after (if is_failure then note res.member ev events else events)
      (if is_failure then suc n else n) (record_result-Dues now res members dues)

record_pass-Dues :
    (now : Time) (pass : Pass) (members : Members) (events : Events) (counts : List (Identity × ℕ))
    → Dues members
    → Dues (record_pass now pass members events counts).0
unfolding record_pass
record_pass-Dues now [] members events counts dues = dues
record_pass-Dues now ((id, results) ∷ pass) members events counts dues =
    let (after, (noted, n)) = record_results now results members events 0 in
    record_pass-Dues now pass after noted ((id, n) ∷ counts)
      (record_results-Dues now results members events 0 dues)

claim-Dues :
    (policy : String) (now_claimed : Option Claimed) (l : Ledger)
    → Dues l.members
    → Dues (claim policy now_claimed l).members
unfolding claim
claim-Dues policy now_claimed l dues m = ground (
  arith,
  dues m,
  drop_claims-lookup (claims_after policy now_claimed l.claims)
      (or_empty (lookup String-discrete policy l.claims)) l.members m,
)

Reach-Dues : {l : Ledger} → Reach l → Dues l.members
unfolding settle forget lookup
Reach-Dues fresh = λ m h. ground (arith, h)
Reach-Dues (settled {l = l} now policy pass r) =
    claim-Dues policy (some (claims_of pass))
      (record l { members = (record_pass now pass l.members [] []).0 })
      (record_pass-Dues now pass l.members [] [] (Reach-Dues r))
Reach-Dues (forgotten {l = l} policy r) = claim-Dues policy none l (Reach-Dues r)

sub_mono : (t u now : Time) → t ≤ u → leb_ℤ (sub t now) (sub u now) ≡ true
unfolding sub
sub_mono t u now h = ground (arith, h)

min_max_le :
    (interval a b floor : ℤ)
    → leb_ℤ a b ≡ true
    → leb_ℤ (min_ℤ interval (max_ℤ a floor)) (max_ℤ b floor) ≡ true
min_max_le interval a b floor h = ground (arith, h)

requeue_within-retry :
    (l : Ledger) (now : Time) (policy : String) (interval floor : ℤ) (m : MemberKey)
    → Reach l
    → in_claims m (or_empty (lookup String-discrete policy l.claims)) ≡ true
    → has_retry (lookup member_discrete m l.members) ≡ true
    → leb_ℤ
        (requeue_within now policy interval floor l)
        (max_ℤ (sub (retry_of (lookup member_discrete m l.members)) now) floor)
      ≡ true
unfolding requeue_within
requeue_within-retry l now policy interval floor m r claimed w =
    let ids = or_empty (lookup String-discrete policy l.claims) in
    let due = due_of l.members m in
    let found = earliest_retry-found l.members (Reach-Dues r) ids zero_time m w claimed in
    let earliest = earliest_retry l.members ids zero_time in
    ground (
      arith,
      found,
      sub_mono earliest due now,
      min_max_le interval (sub earliest now) (sub due now) floor,
    )

requeue_within-bounds :
    (l : Ledger) (now : Time) (policy : String) (interval floor : ℤ)
    → leb_ℤ floor interval ≡ true
    → (leb_ℤ floor (requeue_within now policy interval floor l) ≡ true)
      × (leb_ℤ (requeue_within now policy interval floor l) interval ≡ true)
unfolding requeue_within
requeue_within-bounds l now policy interval floor h = (ground (arith, h), ground (arith, h))

-- A retry that is due is a time a pass runs: in any state that the ledger reaches, and with a floor
-- of at most the interval, the next pass of a Policy comes no later than the retry of each member
-- that it claims and that a transient failure holds back, or than the floor where that is later;
-- and it comes no sooner than the floor and no later than the interval.
pub requeue_within-le :
    (l : Ledger) (now : Time) (policy : String) (interval floor : ℤ) (m : MemberKey)
    → Reach l
    → leb_ℤ floor interval ≡ true
    → in_claims m (or_empty (lookup String-discrete policy l.claims)) ≡ true
    → has_retry (lookup member_discrete m l.members) ≡ true
    → let delay = requeue_within now policy interval floor l in
      (leb_ℤ delay (max_ℤ (sub (retry_of (lookup member_discrete m l.members)) now) floor) ≡ true)
      × (leb_ℤ floor delay ≡ true)
      × (leb_ℤ delay interval ≡ true)
requeue_within-le l now policy interval floor m r wide claimed w =
    let (no_sooner, no_later) = requeue_within-bounds l now policy interval floor wide in
    (requeue_within-retry l now policy interval floor m r claimed w, no_sooner, no_later)
