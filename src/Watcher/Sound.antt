-- ===== src/Watcher/Sound.antt =====
-- What every pass of internal/oomwatch/watcher.go keeps, whatever it reads.
use mathlib.Core.Path.{subst}
use mathlib.Core.List.{Mem}
use k8s_sustain.Prelude.{
  sym, ap, ◌∙◌, ℕ, ◌≡◌, ◌⊎◌, inl, inr, refl, Bool, Option, none, some, List, [], String, All,
  All-own, All-map,
}
use k8s_sustain.Units.{Quantities}
use k8s_sustain.OomWatch.{Key, OomRecord}
use k8s_sustain.OomWatch.Cache.{Cache}
use k8s_sustain.OomWatch.Sound.{IsSound}
use k8s_sustain.Governance.Consent.{GovernancePolicy}
use k8s_sustain.Governance.Walk.{Res, ok, Reader, Decision, decide}
use k8s_sustain.Watcher.{Pod, OomKill, oom_kills, subject_of}
use k8s_sustain.Watcher.Reconciling.{
  Outcome, PodRead, found, not_found, read_failed, Watcher, done, mark_all, pod_reader, over_policy,
  reconcile,
}
use k8s_sustain.Watcher.Passing.{
  mark_all-IsSound, over_policy-IsSound, over_policy-answer, record_kills-told, told_as, Passed,
  walk_of, reconcile_found-Passed,
}

-- A pass that is done, or one that left the cache as it was and told nobody.
abbrev pub IsAtomic : Cache → Outcome → Type 0
IsAtomic c o = (o.answer ≡ done) ⊎ ((o.cache ≡ c) × (o.told ≡ []))

module _ {Q : Type 0} (w : Watcher) where
  module _ ⦃qu : Quantities Q⦄ (as_int64 : Q → Option ℕ) (is_label_value : String → Bool) where
    Passed-IsSound :
        (pod : Pod Q) (kills : List OomKill) (walked : Res Decision) (c : Cache) (o : Outcome)
        → Passed w pod kills walked c o
        → IsSound c
        → IsSound o.cache
    Passed-IsSound pod kills walked c o (inl (same, _)) s = subst IsSound (sym same) s
    Passed-IsSound pod kills walked c o (inr (d, _, e)) s =
        subst (λ o. IsSound o.cache) (sym e)
          (over_policy-IsSound w d.policy pod kills d (mark_all pod.uid w.marked kills c)
            (mark_all-IsSound pod.uid w.marked kills c s))

    -- Whatever a pass reads, it keeps a sound cache sound: never more entries or marks than the
    -- limit, distinct keys, and an index that knows exactly the containers that have an entry.
    pub reconcile-IsSound :
        (r : Reader) (read : PodRead Q) (c : Cache)
        → IsSound c
        → IsSound (reconcile w as_int64 is_label_value r read c).cache
    unfolding reconcile
    reconcile-IsSound r not_found c s = s
    reconcile-IsSound r (read_failed e) c s = s
    reconcile-IsSound r (found pod) c s =
        Passed-IsSound pod (oom_kills as_int64 pod) (walk_of w is_label_value r pod) c _
          (reconcile_found-Passed w as_int64 is_label_value r pod c) s

    Passed-IsAtomic :
        (pod : Pod Q) (kills : List OomKill) (walked : Res Decision) (c : Cache) (o : Outcome)
        → Passed w pod kills walked c o
        → IsAtomic c o
    Passed-IsAtomic pod kills walked c o (inl same) = inr same
    Passed-IsAtomic pod kills walked c o (inr (d, _, e)) = inl (
        ap (λ o. o.answer) e
        ∙ over_policy-answer w d.policy pod kills d (mark_all pod.uid w.marked kills c))

    -- A pass that fails or asks to be run again, because a read it needed failed, has recorded no
    -- kill, marked none as resolved and told the handler of none.
    pub reconcile-IsAtomic :
        (r : Reader) (read : PodRead Q) (c : Cache)
        → IsAtomic c (reconcile w as_int64 is_label_value r read c)
    unfolding reconcile
    reconcile-IsAtomic r not_found c = inl refl
    reconcile-IsAtomic r (read_failed e) c = inr (refl, refl)
    reconcile-IsAtomic r (found pod) c =
        Passed-IsAtomic pod (oom_kills as_int64 pod) (walk_of w is_label_value r pod) c _
          (reconcile_found-Passed w as_int64 is_label_value r pod c)

    -- A kill that the pod's status shows, under the identity and the Policy that Decide answers.
    abbrev pub IsGoverned : Reader → PodRead Q → Key × OomRecord → Type 0
    IsGoverned r read e =
        (pod : Pod Q) × (read ≡ found pod)
        × ((d : Decision) × (decide is_label_value (subject_of pod) (pod_reader w.wrap r) ≡ ok d)
            × ((p : GovernancePolicy) × (d.policy ≡ some p)
                × ((k : OomKill) × Mem k (oom_kills as_int64 pod)
                    × (e ≡ told_as pod d.identity p.name w.now k))))

    over_policy-IsGoverned :
        (o : Option GovernancePolicy) (r : Reader) (pod : Pod Q) (d : Decision) (c : Cache)
        → walk_of w is_label_value r pod ≡ ok d
        → d.policy ≡ o
        → All (IsGoverned r (found pod)) (over_policy w pod (oom_kills as_int64 pod) d c o).told
    unfolding over_policy
    over_policy-IsGoverned none r pod d c walked e = tt
    over_policy-IsGoverned (some p) r pod d c walked e =
        record_kills-told pod d.identity p.name w.now (IsGoverned r (found pod)) w.handled
          (oom_kills as_int64 pod) c
          (All-map (λ k m. (pod, refl, (d, walked, (p, e, (k, m, refl))))) (oom_kills as_int64 pod)
            (All-own (oom_kills as_int64 pod)))

    Passed-IsGoverned :
        (r : Reader) (pod : Pod Q) (c : Cache) (o : Outcome)
        → Passed w pod (oom_kills as_int64 pod) (walk_of w is_label_value r pod) c o
        → All (IsGoverned r (found pod)) o.told
    Passed-IsGoverned r pod c o (inl (_, e)) = subst (All (IsGoverned r (found pod))) (sym e) tt
    Passed-IsGoverned r pod c o (inr (d, walked, e)) =
        subst (λ o. All (IsGoverned r (found pod)) o.told) (sym e)
          (over_policy-IsGoverned d.policy r pod d _ walked refl)

    -- The handler is told only of OOM kills that the status of the pod shows, of a pod that Decide
    -- finds a Policy for, each under the identity and with the Policy that Decide answers.
    pub reconcile-IsGoverned :
        (r : Reader) (read : PodRead Q) (c : Cache)
        → All (IsGoverned r read) (reconcile w as_int64 is_label_value r read c).told
    unfolding reconcile
    reconcile-IsGoverned r not_found c = tt
    reconcile-IsGoverned r (read_failed e) c = tt
    reconcile-IsGoverned r (found pod) c =
        Passed-IsGoverned r pod c _ (reconcile_found-Passed w as_int64 is_label_value r pod c)
