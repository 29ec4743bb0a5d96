-- ===== src/Ledger/Recording.antt =====
-- internal/ledger/ledger.go: what one result makes of a member's entry (recordLocked, failLocked).
use k8s_sustain.Prelude.{
  ℕ, ◌*◌, ◌^◌, min, Bool, true, false, not, Option, none, some, String, lookup, insert, delete,
  if◌then◌else◌,
}
use k8s_sustain.Prelude.Int.{ℤ, pos, negsuc, ◌+ℤ◌, int64}
use k8s_sustain.Prelude.Time.{Time, zero_time, before, add}
use k8s_sustain.Ledger.{
  base_retry_delay, max_retry_delay, MemberKey, member_discrete, Step, PodCounts, ResultKind, done,
  idle, uncounted, skipped, failed, Failure, MemberEntry, Members,
}
use k8s_sustain.Ledger.Errors.{GoError, text_of, permanent_error}
use k8s_sustain.WlrCache.{same_text}

pub record Result : Type 0 where
  pub member : MemberKey
  pub kind : ResultKind
  pub pods : PodCounts
  pub step : Step
  pub err : Option GoError

-- `stepFailures`, a map: empty for any other step.
abbrev pub step_failure : Step → String
step_failure step =
    if same_text step "prometheus"
    then "Prometheus query failed"
    else if same_text step "patch"
    then "Pod recycle failed"
    else if same_text step "resize"
    then "In-place pod resize failed"
    else if same_text step "store"
    then "Recommendation could not be stored for the webhook"
    else ""

-- An Event, by its reason; the message is made of the parts.
pub data Event : Type 0 where
  reconciliation_failed : (what err : String) → Event
  reconciliation_retry_scheduled : (what err : String) (attempts : ℤ) (due : Time) → Event

abbrev pub empty_entry : MemberEntry
empty_entry = record { pods = record { total = 0; stale = 0 }; is_measured = false; failure = none }

abbrev pub or_new : Option MemberEntry → MemberEntry
or_new none = empty_entry
or_new (some e) = e

unfoldable pub entry_of : MemberKey → Members → MemberEntry
entry_of m members = or_new (lookup member_discrete m members)

abbrev pub max_shift : ℕ
max_shift = 16

-- The attempts before this one as a shift. Go panics on a negative one, which is 2^63 failures away.
abbrev pub shift : ℤ → ℕ
shift (pos n) = min n max_shift
shift (negsuc n) = 0

unfoldable pub delay : ℤ → ℕ
delay before_this = min (base_retry_delay * 2 ^ shift before_this) max_retry_delay

abbrev pub attempts_of : Option Failure → ℤ
attempts_of none = pos 0
attempts_of (some f) = f.attempts

abbrev pub was_permanent : Option Failure → Bool
was_permanent none = false
was_permanent (some f) = f.is_permanent

-- The failure that a failed result leaves.
unfoldable pub failure_after : Time → Option Failure → Step → Option GoError → Failure
unfolding permanent_error delay
failure_after now prev step err =
    if permanent_error err
    then record { step = step; is_permanent = true; attempts = pos 0; due = zero_time }
    else record {
      step = step;
      is_permanent = false;
      attempts = int64 (pos 1 +ℤ attempts_of prev);
      due = add now (pos (delay (attempts_of prev)));
    }

unfoldable pub fail : Time → Result → Members → Members × Option Event
unfolding entry_of failure_after
fail now res members =
    let entry = entry_of res.member members in
    let prev = entry.failure in
    let f = failure_after now prev res.step res.err in
    let what = step_failure res.step in
    (
      insert member_discrete res.member (record entry { failure = some f }) members,
      if not f.is_permanent
          then some (reconciliation_retry_scheduled what (text_of res.err) f.attempts f.due)
          else if was_permanent prev
          then none
          else some (reconciliation_failed what (text_of res.err)),
    )

abbrev pub keep_measured : MemberKey → MemberEntry → Members → Members
keep_measured m e members =
    if e.is_measured then insert member_discrete m e members else delete member_discrete m members

-- The entries after a result of each kind.
unfoldable pub members_after : ResultKind → Time → Result → Members → Members
unfolding fail entry_of
members_after kind now res members =
    let entry = record (entry_of res.member members) { failure = none } in
    elim kind [
      | skipped ↦ members
      | failed ↦ (fail now res members).0
      | done ↦
          keep_measured res.member (record entry { pods = res.pods; is_measured = true }) members
      | idle ↦ keep_measured res.member (record entry { is_measured = false }) members
      | uncounted ↦ keep_measured res.member entry members
    ]

abbrev pub is_failed : ResultKind → Bool
is_failed failed = true
is_failed _ = false

-- `recordLocked`: with the Warning, and whether the result counts as a failure of the pass.
unfoldable pub record_result : Time → Result → Members → Members × (Option Event × Bool)
unfolding members_after
record_result now res members = (
  members_after res.kind now res members,
  (if is_failed res.kind then (fail now res members).1 else none, is_failed res.kind),
)

unfoldable pub may_run : Time → MemberKey → Members → Bool
may_run now m members = elim (lookup member_discrete m members) [
  | none ↦ true
  | some e ↦ elim e.failure [
    | none ↦ true
    | some f ↦ if f.is_permanent then true else not (before now f.due)
  ]
]
