-- ===== src/Watcher/Reconciling.antt =====
-- internal/oomwatch/watcher.go: Reconcile over the cache of internal/oomwatch/cache.go, as one
-- pass without another between its calls. The pod, the reads of the walk and the instants at which
-- the clock is read are arguments; what the handler is told is part of the outcome.
use k8s_sustain.Prelude.{
  ℕ, Bool, true, false, not, Option, none, some, List, [], ◌∷◌, ◌++◌, String, is_filled,
  if◌then◌else◌,
}
use k8s_sustain.Prelude.Int.{ℤ}
use k8s_sustain.Prelude.Time.{Time}
use k8s_sustain.Units.{Quantities}
use k8s_sustain.OomWatch.{Identity, Key, OomRecord}
use k8s_sustain.OomWatch.Cache.{
  Cache, ResolvedEventKey, already_resolved, mark_resolved, record_kill,
}
use k8s_sustain.Governance.Consent.{GovernancePolicy}
use k8s_sustain.Governance.Walk.{Res, ok, err, Reader, Decision, decide}
use k8s_sustain.Watcher.{Pod, OomKill, oom_kills, subject_of}
use k8s_sustain.Watcher.Retrying.{owner_retry_after}

pub data PodRead (Q : Type 0) : Type 0 where
  found : Pod Q → PodRead Q
  not_found : PodRead Q
  read_failed : String → PodRead Q

-- `ctrl.Result` and the error: a delay of zero asks for no pass.
pub data Answer : Type 0 where
  done : Answer
  requeue_after : ℤ → Answer
  failed : String → Answer

pub record Outcome : Type 0 where
  pub cache : Cache
  -- the calls of OnOOMDetected
  pub told : List (Key × OomRecord)
  pub answer : Answer

-- A pass that leaves the cache and tells nobody.
abbrev pub quiet : Answer → Cache → Outcome
quiet a c = record { cache = c; told = []; answer = a }

unfoldable pub event_of : String → OomKill → ResolvedEventKey
event_of uid k = ((uid, k.container), (k.restart_count, k.terminated_at))

-- The kills that an earlier pass did not resolve, each asked at its instant.
unfoldable pub unresolved_of :
    String → (asked : OomKill → Time) → Cache → List OomKill → List OomKill
unfolding event_of
unresolved_of uid asked c [] = []
unresolved_of uid asked c (k ∷ kills) =
    let rest = unresolved_of uid asked c kills in
    if not (already_resolved (event_of uid k) (asked k) c) then k ∷ rest else rest

unfoldable pub mark_all : String → (marked : OomKill → Time) → List OomKill → Cache → Cache
unfolding event_of
mark_all uid marked [] c = c
mark_all uid marked (k ∷ kills) c =
    mark_all uid marked kills (mark_resolved (event_of uid k) (marked k) c)

-- `PodOwner` of podReader: `wrap` is the text of an error that wraps errOwnerUnresolved.
abbrev pub wrapped_owner : (String → String) → Res (String × String) → Res (String × String)
wrapped_owner wrap (ok owner) = ok owner
wrapped_owner wrap (err e) = err (wrap e)

unfoldable pub pod_reader : (String → String) → Reader → Reader
pod_reader wrap r = record r { pod_owner = wrapped_owner wrap r.pod_owner }

unfoldable pub record_of : {Q : Type 0} → Pod Q → String → Time → OomKill → OomRecord
record_of pod policy now k = record {
  container = k.container;
  policy_name = policy;
  observed_at = now;
  terminated_at = k.terminated_at;
  restart_count = k.restart_count;
  pod_name = pod.name;
  pod_uid = pod.uid;
  oom_limit_bytes = k.limit_bytes;
}

-- Whether the handler is told: there is one and the kill is new.
abbrev pub tell : Bool → Bool → Key → OomRecord → List (Key × OomRecord)
tell true true key r = (key, r) ∷ []
tell true false key r = []
tell false new key r = []

abbrev pub key_of : Identity → OomKill → Key
key_of id k = (id, k.container)

-- The pass over the kills of a governed pod.
unfoldable pub record_kills :
    {Q : Type 0} → Pod Q → Identity → String → Time → Bool → List OomKill → Cache → Outcome
unfolding record_of
record_kills pod id policy now handled [] c = quiet done c
record_kills pod id policy now handled (k ∷ kills) c =
    let key = key_of id k in
    let r = record_of pod policy now k in
    let recorded = record_kill key r c in
    let rest = record_kills pod id policy now handled kills recorded.0 in
    record rest { told = tell handled recorded.1 key r ++ rest.told }

-- What the parts of the watcher answer: the clock at each call, the window, whether there is a
-- handler, and the errors that wrap errOwnerUnresolved.
pub record Watcher : Type 0 where
  pub window : ℤ
  pub now : Time
  pub asked : OomKill → Time
  pub marked : OomKill → Time
  pub handled : Bool
  pub wrap : String → String
  -- `errors.Is(err, errOwnerUnresolved)`
  pub is_owner_unresolved : String → Bool

module _ {Q : Type 0} (w : Watcher) where
  -- What follows a walk that answered.
  unfoldable pub over_policy :
      Pod Q → List OomKill → Decision → Cache → Option GovernancePolicy → Outcome
  unfolding record_kills
  over_policy pod kills d c none = quiet done c
  over_policy pod kills d c (some p) = record_kills pod d.identity p.name w.now w.handled kills c

  unfoldable pub decided : Pod Q → List OomKill → List OomKill → Cache → Res Decision → Outcome
  unfolding owner_retry_after mark_all over_policy
  decided pod kills unresolved c (err e) =
      if w.is_owner_unresolved e
      then quiet (requeue_after (owner_retry_after w.window w.now unresolved)) c
      else quiet (failed e) c
  decided pod kills unresolved c (ok d) =
      over_policy pod kills d (mark_all pod.uid w.marked kills c) d.policy

  unfoldable pub reconcile_unresolved :
      (String → Bool) → Reader → Pod Q → List OomKill → Cache → Outcome
  unfolding decided unresolved_of pod_reader subject_of
  reconcile_unresolved is_label_value r pod kills c =
      let unresolved = unresolved_of pod.uid w.asked c kills in
      if not (is_filled unresolved)
      then quiet done c
      else decided pod kills unresolved c
          (decide is_label_value (subject_of pod) (pod_reader w.wrap r))

  module _ ⦃qu : Quantities Q⦄ (as_int64 : Q → Option ℕ) where
    unfoldable pub reconcile : (String → Bool) → Reader → PodRead Q → Cache → Outcome
    unfolding reconcile_unresolved
    reconcile is_label_value r not_found c = quiet done c
    reconcile is_label_value r (read_failed e) c = quiet (failed e) c
    reconcile is_label_value r (found pod) c =
        let kills = oom_kills as_int64 pod in
        if not (is_filled kills)
        then quiet done c
        else reconcile_unresolved is_label_value r pod kills c
