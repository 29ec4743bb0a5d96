-- ===== src/Ledger/Backoff.antt =====
-- When a member that keeps failing runs again (internal/ledger/ledger.go).
use k8s_sustain.Prelude.{
  ℕ, ◌+◌, ◌*◌, ◌^◌, ◌≤◌, ◌<◌, ◌≡◌, refl, ap, ◌∙◌, ◌↔◌, min, Bool, true, ◌&&◌, ◌||◌, not, Option,
  List, [], ◌∷◌, lookup, All, is_same, is_same_iff, arith, if◌then◌else◌, dec_lt,
}
use k8s_sustain.Prelude.Int.{ℤ, pos, ◌+ℤ◌, int64, int64_small, max_int64}
use k8s_sustain.Prelude.Time.{Time, before, add}
use k8s_sustain.Ledger.{
  base_retry_delay, max_retry_delay, MemberKey, member_discrete, MemberEntry, Members,
}
use k8s_sustain.Ledger.Errors.{permanent_error}
use k8s_sustain.Ledger.Recording.{
  Result, is_failed, attempts_of, delay, failure_after, record_result, may_run, or_new,
}
use native.Mathlib.Nat.{pow-le-pow_right}
use k8s_sustain.Ledger.Entries.{entry_after, record_result-lookup}

min_below : (a b : ℕ) → a < b → min a b ≡ a
min_below a b h = ground arith

-- The delay is the base doubled with each attempt, and five minutes from there on: the bound on the
-- shift changes nothing.
delay_doubles : (n : ℕ) → delay (pos n) ≡ min (base_retry_delay * 2 ^ n) max_retry_delay
unfolding delay
delay_doubles n = elim (dec_lt n 16) [
  | yes h ↦ rw (min_below n 16 h) refl
  | no h ↦
      let large : 2 ^ 16 ≤ 2 ^ n =
        pow-le-pow_right {n = 2} (omega arith) {i = 16} {j = n} (omega (arith, h)) in
      ground (arith, large, h)
]

-- A transient failure of this member, or any result of another.
abbrev pub is_retried : MemberKey → Result → Bool
is_retried m res =
    not (is_same member_discrete m res.member)
    || (is_failed res.kind && not (permanent_error res.err))

abbrev pub Run : Type 0
Run = List (Time × Result)

-- The members after a run of results, and how many of them were this member's.
abbrev pub record_all : Run → Members → Members
record_all [] members = members
record_all ((now, res) ∷ run) members = record_all run (record_result now res members).0

abbrev pub count_of : MemberKey → Run → ℕ
count_of m [] = 0
count_of m ((_, res) ∷ run) =
    (if is_same member_discrete m res.member then 1 else 0) + count_of m run

abbrev attempts_in : MemberKey → Members → ℤ
attempts_in m members = attempts_of (or_new (lookup member_discrete m members)).failure

pos_suc : (k : ℕ) → (pos 1 +ℤ pos k) ≡ pos (1 + k)
unfolding ◌+ℤ◌
pos_suc k = ground arith

next_attempt : (k : ℕ) → k < max_int64 → int64 (pos 1 +ℤ pos k) ≡ pos (1 + k)
next_attempt k h = ap int64 (pos_suc k) ∙ int64_small (1 + k) (omega (arith, h))

entry_after-attempts :
    (now : Time) (res : Result) (o : Option MemberEntry) (k : ℕ)
    → (is_failed res.kind && not (permanent_error res.err)) ≡ true
    → attempts_of (or_new o).failure ≡ pos k
    → k < max_int64
    → attempts_of (or_new (entry_after res.kind now res o)).failure ≡ pos (1 + k)
unfolding failure_after
entry_after-attempts now res o k h e small =
    let next = ap (λ z. int64 (pos 1 +ℤ z)) e ∙ next_attempt k small in ground (arith, h, next)

same_attempts :
    (m k : MemberKey) (members : Members)
    → is_same member_discrete m k ≡ true
    → attempts_in m members ≡ attempts_in k members
same_attempts m k members h =
    ap (λ x. attempts_in x members) ((is_same_iff member_discrete m k).0 h)

record_result-attempts :
    (now : Time) (res : Result) (members : Members) (m : MemberKey) (k : ℕ)
    → is_retried m res ≡ true
    → attempts_in m members ≡ pos k
    → k < max_int64
    → attempts_in m (record_result now res members).0
      ≡ pos ((if is_same member_discrete m res.member then 1 else 0) + k)
unfolding failure_after
record_result-attempts now res members m k h e small = ground (
  arith,
  h,
  e,
  is_same_iff member_discrete m res.member,
  record_result-lookup now res members m,
  same_attempts m res.member members,
  entry_after-attempts now res (lookup member_discrete res.member members) k,
)

record_all-attempts :
    (run : Run) (members : Members) (m : MemberKey) (k : ℕ)
    → All (λ (_, res). is_retried m res ≡ true) run
    → attempts_in m members ≡ pos k
    → count_of m run + k < max_int64
    → attempts_in m (record_all run members) ≡ pos (count_of m run + k)
record_all-attempts [] members m k all e small = ground (arith, e)
record_all-attempts ((now, res) ∷ run) members m k (one, all) e small =
    let j : ℕ = if is_same member_discrete m res.member then 1 else 0 in
    let first = record_result-attempts now res members m k one e (omega (arith, small)) in
    let rest =
      record_all-attempts run (record_result now res members).0 m (j + k) all first
        (omega (arith, small)) in
    rest ∙ ap pos (omega arith)

-- The entry that a transient failure leaves lets the member run from its time on.
may_run-failed :
    (now later : Time) (res : Result) (members : Members)
    → (is_failed res.kind && not (permanent_error res.err)) ≡ true
    → may_run later res.member (record_result now res members).0
      ≡ not (before later (add now (pos (delay (attempts_in res.member members)))))
unfolding may_run failure_after
may_run-failed now later res members h = ground (
  arith,
  h,
  is_same_iff member_discrete res.member res.member,
  record_result-lookup now res members res.member,
)

-- A member without a transient failure, of which any number of results are then transient failures
-- with any results of other members in between, runs again after one more at `now` exactly once
-- thirty seconds, doubled by each failure before that one, or five minutes if that is less, have
-- passed.
pub may_run-record_all :
    (run : Run) (res : Result) (members : Members) (now later : Time)
    → attempts_of (or_new (lookup member_discrete res.member members)).failure ≡ pos 0
    → All (λ (_, r). is_retried res.member r ≡ true) run
    → (is_failed res.kind && not (permanent_error res.err)) ≡ true
    → count_of res.member run < max_int64
    → (may_run later res.member (record_result now res (record_all run members)).0 ≡ true)
      ↔ (now + min (base_retry_delay * 2 ^ count_of res.member run) max_retry_delay ≤ later)
unfolding add
may_run-record_all run res members now later e all h small =
    let after = record_all run members in
    let k = count_of res.member run in
    let tried = record_all-attempts run members res.member 0 all e (omega (arith, small)) in
    let waited : delay (attempts_in res.member after)
        ≡ min (base_retry_delay * 2 ^ k) max_retry_delay =
      ap delay (tried ∙ ap pos (omega arith)) ∙ delay_doubles k in
    ground (arith, may_run-failed now later res after h, waited)
