-- ===== src/Watcher/Passing.antt =====
-- How a pass of internal/oomwatch/watcher.go ends: quietly, or with the steps that follow a walk
-- that answered, and what those steps do to the cache and tell the handler.
use k8s_sustain.Prelude.{
  ℕ, ◌≡◌, ◌⊎◌, inl, inr, refl, Bool, true, false, Option, none, some, List, [], ◌∷◌, String, All,
  All-append, is_filled, if_both, not,
}
use k8s_sustain.Prelude.Time.{Time}
use k8s_sustain.Units.{Quantities}
use k8s_sustain.OomWatch.{Identity, Key, OomRecord}
use k8s_sustain.OomWatch.Cache.{Cache, record_kill}
use k8s_sustain.OomWatch.Sound.{IsSound, record_kill-IsSound, mark_resolved-IsSound}
use k8s_sustain.Governance.Consent.{GovernancePolicy}
use k8s_sustain.Governance.Walk.{Res, ok, err, Reader, Decision, decide}
use k8s_sustain.Watcher.{Pod, OomKill, oom_kills, subject_of}
use k8s_sustain.Watcher.Reconciling.{
  Outcome, found, Watcher, quiet, done, event_of, failed, requeue_after, unresolved_of, mark_all,
  pod_reader, record_kills, tell, key_of, record_of, over_policy, decided, reconcile_unresolved,
  reconcile,
}
use k8s_sustain.Watcher.Retrying.{owner_retry_after}

pub mark_all-IsSound :
    (uid : String) (marked : OomKill → Time) (kills : List OomKill) (c : Cache)
    → IsSound c
    → IsSound (mark_all uid marked kills c)
unfolding mark_all
mark_all-IsSound uid marked [] c s = s
mark_all-IsSound uid marked (k ∷ kills) c s =
    mark_all-IsSound uid marked kills _ (mark_resolved-IsSound (event_of uid k) (marked k) c s)

module _ {Q : Type 0} (pod : Pod Q) (id : Identity) (policy : String) (now : Time) where
  record_kills-IsSound :
      (handled : Bool) (kills : List OomKill) (c : Cache)
      → IsSound c
      → IsSound (record_kills pod id policy now handled kills c).cache
  unfolding record_kills
  record_kills-IsSound handled [] c s = s
  record_kills-IsSound handled (k ∷ kills) c s =
      record_kills-IsSound handled kills _
        (record_kill-IsSound (key_of id k) (record_of pod policy now k) c s)

  record_kills-answer :
      (handled : Bool) (kills : List OomKill) (c : Cache)
      → (record_kills pod id policy now handled kills c).answer ≡ done
  unfolding record_kills
  record_kills-answer handled [] c = refl
  record_kills-answer handled (k ∷ kills) c =
      record_kills-answer handled kills (record_kill (key_of id k) (record_of pod policy now k) c).0

  -- What the handler is told of a kill.
  abbrev pub told_as : OomKill → Key × OomRecord
  told_as k = (key_of id k, record_of pod policy now k)

  tell-All :
      (P : Key × OomRecord → Type 0) (handled new : Bool) (k : OomKill)
      → P (told_as k)
      → All P (tell handled new (key_of id k) (record_of pod policy now k))
  tell-All P true true k p = (p, tt)
  tell-All P true false k p = tt
  tell-All P false new k p = tt

  pub record_kills-told :
      (P : Key × OomRecord → Type 0) (handled : Bool) (kills : List OomKill) (c : Cache)
      → All (λ k. P (told_as k)) kills
      → All P (record_kills pod id policy now handled kills c).told
  unfolding record_kills
  record_kills-told P handled [] c _ = tt
  record_kills-told P handled (k ∷ kills) c (p, ps) =
      let recorded = record_kill (key_of id k) (record_of pod policy now k) c in
      All-append P (tell handled recorded.1 (key_of id k) (record_of pod policy now k)) _
        (tell-All P handled recorded.1 k p) (record_kills-told P handled kills recorded.0 ps)

module _ {Q : Type 0} (w : Watcher) where
  pub over_policy-IsSound :
      (o : Option GovernancePolicy) (pod : Pod Q) (kills : List OomKill) (d : Decision) (c : Cache)
      → IsSound c
      → IsSound (over_policy w pod kills d c o).cache
  unfolding over_policy
  over_policy-IsSound none pod kills d c s = s
  over_policy-IsSound (some p) pod kills d c s =
      record_kills-IsSound pod d.identity p.name w.now w.handled kills c s

  pub over_policy-answer :
      (o : Option GovernancePolicy) (pod : Pod Q) (kills : List OomKill) (d : Decision) (c : Cache)
      → (over_policy w pod kills d c o).answer ≡ done
  unfolding over_policy
  over_policy-answer none pod kills d c = refl
  over_policy-answer (some p) pod kills d c =
      record_kills-answer pod d.identity p.name w.now w.handled kills c

  -- What a pass ends with: the cache as it was and nobody told, or what follows a walk that
  -- answered.
  abbrev pub Passed : Pod Q → List OomKill → Res Decision → Cache → Outcome → Type 0
  Passed pod kills walked c o =
      ((o.cache ≡ c) × (o.told ≡ []))
      ⊎ ((d : Decision) × (walked ≡ ok d)
          × (o ≡ over_policy w pod kills d (mark_all pod.uid w.marked kills c) d.policy))

  decided-Passed :
      (d : Res Decision) (pod : Pod Q) (kills unresolved : List OomKill) (c : Cache)
      → Passed pod kills d c (decided w pod kills unresolved c d)
  unfolding decided
  decided-Passed (err e) pod kills unresolved c = inl (
      if_both {A = Outcome} (λ o. (o.cache ≡ c) × (o.told ≡ [])) (w.is_owner_unresolved e)
        (quiet (requeue_after (owner_retry_after w.window w.now unresolved)) c) (quiet (failed e) c)
        (refl, refl) (refl, refl))
  decided-Passed (ok d) pod kills unresolved c = inr (d, refl, refl)

  module _ (is_label_value : String → Bool) (r : Reader) where
    abbrev pub walk_of : Pod Q → Res Decision
    walk_of pod = decide is_label_value (subject_of pod) (pod_reader w.wrap r)

    reconcile_unresolved-Passed :
        (pod : Pod Q) (kills : List OomKill) (c : Cache)
        → Passed pod kills (walk_of pod) c (reconcile_unresolved w is_label_value r pod kills c)
    unfolding reconcile_unresolved
    reconcile_unresolved-Passed pod kills c =
        let unresolved = unresolved_of pod.uid w.asked c kills in
        if_both (Passed pod kills (walk_of pod) c) (not (is_filled unresolved)) (quiet done c)
          (decided w pod kills unresolved c (walk_of pod)) (inl (refl, refl))
          (decided-Passed (walk_of pod) pod kills unresolved c)

  module _ ⦃qu : Quantities Q⦄ (as_int64 : Q → Option ℕ) (is_label_value : String → Bool) where
    -- What a pass over a pod that was read ends with.
    pub reconcile_found-Passed :
        (r : Reader) (pod : Pod Q) (c : Cache)
        → Passed pod
            (oom_kills as_int64 pod)
            (walk_of is_label_value r pod)
            c
            (reconcile w as_int64 is_label_value r (found pod) c)
    unfolding reconcile
    reconcile_found-Passed r pod c =
        let kills = oom_kills as_int64 pod in
        if_both (Passed pod kills (walk_of is_label_value r pod) c) (not (is_filled kills))
          (quiet done c) (reconcile_unresolved w is_label_value r pod kills c) (inl (refl, refl))
          (reconcile_unresolved-Passed is_label_value r pod kills c)
