-- ===== src/Patcher/Cluster.antt =====
-- What the patcher calls (internal/workload/patcher.go): the Kubernetes API through
-- controller-runtime's client, the clock, the timer and the context of a pass. All are parameters,
-- steps on a state S that others may move too; L is a compiled label selector.
use k8s_sustain.Prelude.{ℕ, Bool, true, false, Option, some, List, [], ◌∷◌, String, if◌then◌else◌}
use k8s_sustain.Prelude.Int.{ℤ, pos, ltb_ℤ}
use k8s_sustain.Prelude.Time.{Time}
use k8s_sustain.Patcher.Pods.{Pod}

-- The errors that the code tells apart.
pub data Rejection : Type 0 where
  is_not_found is_invalid is_too_many_requests : Rejection
  otherwise : String → Rejection

pub data Answer {ℓ} (A : Type ℓ) : Type ℓ where
  granted : A → Answer A
  denied : Rejection → Answer A

-- What a pass reads.
pub record View (S L Q : Type 0) : Type 0 where
  -- the pods of a namespace that a selector matches, all of them where there is none
  pub list_pods : String → Option L → S → S × Answer (List (Pod Q))
  -- `ctx.Err()`, none while the context lives
  pub context_error : S → S × Option String
  pub now : S → S × Time
  -- waits as long, unless the context ends first, with its error
  pub pause : ℤ → S → S × Option String

pub record Cluster (S L Q : Type 0) : Type 0 where
  pub view : View S L Q
  -- the merge patch of the resize subresource, from the second pod to the first, which answers the
  -- pod as stored
  pub resize : Pod Q → Pod Q → S → S × Answer (Pod Q)
  pub evict : Pod Q → S → S × Answer (Unit {0})

-- The errors of one pod's turn.
pub data Failure : Type 0 where
  -- of the wait: a pod crash-loops
  crash_looping : String → Failure
  -- of the gate: a pod that runs the Recommendation crash-loops
  already_crashing : String → Failure
  not_listed not_resized not_evicted : Rejection → Failure
  -- whether the evicted pod is gone, and how many pods are pending
  timed_out : Bool → ℕ → Failure
  context_done : String → Failure
  -- the wait has polled more often than its fuel allows, which never happens
  unfinished : Failure

-- `errors.Is(err, errCrashLoopBackOff)`
abbrev pub is_crash_loop : Option Failure → Bool
is_crash_loop (some (crash_looping name)) = true
is_crash_loop (some (already_crashing name)) = true
is_crash_loop _ = false

-- The errors that a pass joins, under the name of the pod.
pub data PassError : Type 0 where
  of_pod after_evicting : String → Failure → PassError
  of_pass : Failure → PassError

pub record Patcher : Type 0 where
  pub in_place : Bool
  pub ready_poll_interval : ℤ
  pub ready_timeout : ℤ

pub data PatcherOption : Type 0 where
  with_ready_poll_interval with_ready_timeout : ℤ → PatcherOption

unfoldable pub set_option : PatcherOption → Patcher → Patcher
set_option (with_ready_poll_interval d) p =
    if ltb_ℤ (pos 0) d then record p { ready_poll_interval = d } else p
set_option (with_ready_timeout d) p = if ltb_ℤ (pos 0) d then record p { ready_timeout = d } else p

unfoldable pub set_options : List PatcherOption → Patcher → Patcher
unfolding set_option
set_options [] p = p
set_options (o ∷ os) p = set_options os (set_option o p)

-- 2s and 5m
unfoldable pub new_patcher : Bool → List PatcherOption → Patcher
unfolding set_options
new_patcher in_place opts = set_options opts (record {
  in_place = in_place;
  ready_poll_interval = pos 2_000_000_000;
  ready_timeout = pos 300_000_000_000;
})
