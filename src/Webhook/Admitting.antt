-- ===== src/Webhook/Admitting.antt =====
-- Which pods the webhook injects, and with what (internal/webhook/decide.go).
use k8s_sustain.Prelude.{
  ◌≡◌, refl, true, false, Bool, Option, none, some, String, is_filled, arith, if◌then◌else◌, ◌∙◌,
  ap,
}
use k8s_sustain.Prelude.Time.{Time}
use k8s_sustain.Units.{Quantities}
use k8s_sustain.OomWatch.{Identity}
use k8s_sustain.Workload.Inject.{inject}
use k8s_sustain.WlrCache.{Object}
use k8s_sustain.WlrCache.Reading.{read, injects, held}
use k8s_sustain.WlrCache.ReadLaws.{Served, read-injects}
use k8s_sustain.Governance.Consent.{GovernancePolicy}
use k8s_sustain.Governance.Walk.{Res, ok, err, Reader, Decision}
use k8s_sustain.Governance.Walk
use k8s_sustain.Webhook.{
  Pod, Admission, subject_of, or_no_recs, effective_recommend_only, with_injection, with_known,
  with_stored, with_policy, decided_by, admit_decided, decide,
}

module _ {F Q : Type 0} ⦃qu : Quantities Q⦄ where
  -- A Policy governs the pod, its identity's object holds what that Policy computed before its stamp,
  -- neither the Policy nor the flag is recommend-only, and the writes are what injecting it sets.
  abbrev pub IsInjected :
      Bool
      → (Identity → Res (Option (Object F Q)))
      → Pod Q
      → Time
      → Decision
      → Admission F Q
      → Type 0
  IsInjected global stored pod now g a =
      (p : GovernancePolicy) × (known : Option (Object F Q)) × (g.policy ≡ some p)
      × (stored g.identity ≡ ok known)
      × Served known p.name now
      × (effective_recommend_only p global ≡ false)
      × (a.writes
          ≡ (inject pod.containers pod.init_containers p.exclude_init_containers
              (or_no_recs (held known p.name))).writes)

  with_known-writes :
      (global : Bool) (p : GovernancePolicy) (pod : Pod Q) (now : Time)
      (known : Option (Object F Q)) (a : Admission F Q)
      → is_filled a.writes ≡ false
      → let after = with_known global p pod now known a in
        is_filled after.writes ≡ true
        → (injects (read known p.name now).verdict ≡ true)
          × (effective_recommend_only p global ≡ false)
          × (after.writes
              ≡ (inject pod.containers pod.init_containers p.exclude_init_containers
                  (or_no_recs (read known p.name now).recs)).writes)
  unfolding with_known with_injection
  with_known-writes global p pod now known a e h =
      (ground (arith, e, h), ground (arith, e, h), ground (arith, e, h))

  with_known-Served :
      (global : Bool) (p : GovernancePolicy) (pod : Pod Q) (now : Time)
      (known : Option (Object F Q)) (a : Admission F Q)
      → is_filled a.writes ≡ false
      → let after = with_known global p pod now known a in
        is_filled after.writes ≡ true
        → Served known p.name now
          × (effective_recommend_only p global ≡ false)
          × (after.writes
              ≡ (inject pod.containers pod.init_containers p.exclude_init_containers
                  (or_no_recs (held known p.name))).writes)
  with_known-Served global p pod now known a e h =
      let (injected, only, writes) = with_known-writes global p pod now known a e h in
      let (served, recs) = read-injects known p.name now in
      let same : (read known p.name now).recs ≡ held known p.name =
        recs ∙ ap (λ b. if b then held known p.name else none) injected in
      (
        served.0 injected,
        only,
        writes
            ∙ ap
                (λ r.
                  (inject pod.containers pod.init_containers p.exclude_init_containers
                    (or_no_recs r)).writes)
                same,
      )

  with_stored-writes :
      (global : Bool) (stored : Identity → Res (Option (Object F Q))) (pod : Pod Q) (now : Time)
      (g : Decision) (p : GovernancePolicy) (known : Res (Option (Object F Q))) (a : Admission F Q)
      → g.policy ≡ some p
      → stored g.identity ≡ known
      → is_filled a.writes ≡ false
      → is_filled (with_stored global p pod now known a).writes ≡ true
      → IsInjected global stored pod now g (with_stored global p pod now known a)
  unfolding with_stored
  with_stored-writes global stored pod now g p (err e) a gp sk none_yet h =
      ground (arith, none_yet, h)
  with_stored-writes global stored pod now g p (ok known) a gp sk none_yet h =
      let (served, only, writes) = with_known-Served global p pod now known a none_yet h in
      (p, known, gp, sk, served, only, writes)

  with_policy-writes :
      (global : Bool) (stored : Identity → Res (Option (Object F Q))) (pod : Pod Q) (now : Time)
      (g : Decision) (policy : Option GovernancePolicy)
      → g.policy ≡ policy
      → let a = with_policy global stored pod now policy g.mode (decided_by g) in
        is_filled a.writes ≡ true → IsInjected global stored pod now g a
  unfolding with_policy
  with_policy-writes global stored pod now g none e h = ground (arith, h)
  with_policy-writes global stored pod now g (some p) e h =
      with_stored-writes global stored pod now g p (stored g.identity)
        (record (decided_by g) { policy = p.name; mode = g.mode }) e refl refl h

  admit_decided-writes :
      (global : Bool) (stored : Identity → Res (Option (Object F Q))) (pod : Pod Q) (now : Time)
      (d : Res Decision)
      → let a = admit_decided global stored pod now d in
        is_filled a.writes ≡ true
        → (g : Decision) × (d ≡ ok g) × IsInjected global stored pod now g a
  unfolding admit_decided
  admit_decided-writes global stored pod now (err e) h = ground (arith, h)
  admit_decided-writes global stored pod now (ok g) h =
      (g, refl, with_policy-writes global stored pod now g g.policy refl h)

  -- The webhook sets resources on a pod only when a Policy governs it, its identity's object names
  -- that Policy and holds a Recommendation which the Policy computed, before its stamp, and neither
  -- the Policy nor the flag is recommend-only; it then sets what injecting that Recommendation sets.
  pub decide-writes :
      (is_label_value : String → Bool) (r : Reader) (stored : Identity → Res (Option (Object F Q)))
      (global : Bool) (pod : Pod Q) (now : Time)
      → let a = decide is_label_value r stored global pod now in
        is_filled a.writes ≡ true
        → (g : Decision) × (Walk.decide is_label_value (subject_of pod) r ≡ ok g)
          × IsInjected global stored pod now g a
  unfolding decide
  decide-writes is_label_value r stored global pod now h =
      admit_decided-writes global stored pod now (Walk.decide is_label_value (subject_of pod) r) h
