-- ===== src/Ledger.antt =====
-- internal/ledger: what the controller remembers of applying each member, across passes and
-- Policies. Each method is one step under its mutex; the clock's instant is an argument.
pub mod Errors
pub mod Recording
pub mod Claims
pub mod Passes
pub mod Entries
pub mod Backoff
pub mod Dropping
pub mod Known
pub mod Requeue
mod Examples
use k8s_sustain.Prelude.{
  ℕ, ◌*◌, Bool, Option, List, [], String, String-discrete, pair_discrete, insert, lookup,
}
use k8s_sustain.Prelude.Int.{ℤ}
use k8s_sustain.Prelude.Time.{Time, second, minute}
use k8s_sustain.OomWatch.{Identity}

abbrev pub base_retry_delay : ℕ
base_retry_delay = 30 * second

abbrev pub max_retry_delay : ℕ
max_retry_delay = 5 * minute

-- The kind, the namespace and the name.
abbrev pub MemberKey : Type 0
MemberKey = String × (String × String)

abbrev pub member_discrete : Discrete MemberKey
member_discrete = pair_discrete String-discrete (pair_discrete String-discrete String-discrete)

abbrev pub Step : Type 0
Step = String

-- Counts of pods in memory, which no int64 is too small for.
pub record PodCounts : Type 0 where
  pub total : ℕ
  pub stale : ℕ

pub data ResultKind : Type 0 where
  done idle uncounted skipped failed : ResultKind

pub record Failure : Type 0 where
  pub step : Step
  pub is_permanent : Bool
  pub attempts : ℤ
  pub due : Time

pub record MemberEntry : Type 0 where
  pub pods : PodCounts
  pub is_measured : Bool
  pub failure : Option Failure

abbrev pub Members : Type 0
Members = List (MemberKey × MemberEntry)

-- The members that a Policy claims, by identity.
abbrev pub Claimed : Type 0
Claimed = List (Identity × List MemberKey)

pub record Ledger : Type 0 where
  pub members : Members
  pub claims : List (String × Claimed)

abbrev pub new_ledger : Ledger
new_ledger = record { members = []; claims = [] }
