-- ===== src/WlrCache/Unchanged.antt =====
-- When Record writes nothing (internal/wlrcache/write.go).
use k8s_sustain.Prelude.{
  ◌≡◌, refl, sym, ap, ◌∙◌, Bool, true, false, some, String-discrete, Distinct, arith, inl, inr,
  Bool-cases,
}
use mathlib.Core.Path.{subst}
use k8s_sustain.Prelude.Int.{pos, leb_ℤ}
use k8s_sustain.Prelude.Time.{Time, sub, rfc3339_copy}
use k8s_sustain.Units.{Quantities, QuantityOrder}
use k8s_sustain.WlrCache.{
  Object, Status, Lifetimes, computed, same_outcome, stamp, refresh_interval, status_equivalent,
}
use k8s_sustain.WlrCache.Client.{Client, ok}
use k8s_sustain.WlrCache.Writing.{
  Decision, desired_status, unstamped, is_unchanged, with_recs, decided,
}
use k8s_sustain.WlrCache.Handlers.{record_decision}
use k8s_sustain.WlrCache.Equivalence.{status_equivalent_refl}
use k8s_sustain.WlrCache.Stamps.{stored, stamp-stored}

module _ {F Q : Type 0} ⦃qu : Quantities Q⦄ (ord : QuantityOrder Q) where
  -- The maps of a Go value hold no key twice.
  abbrev pub AreMaps : Object F Q → Decision F Q → Type 0
  AreMaps o d =
      Distinct String-discrete o.status.containers
      × Distinct String-discrete o.status.observed_resources
      × Distinct String-discrete d.recs

  -- The time of a decision, when it is Computed, lies within the refresh interval.
  abbrev pub NoRefresh : Decision F Q → Time → Time → Type 0
  NoRefresh d observed now =
      same_outcome d.outcome computed ≡ true
      → leb_ℤ (pos refresh_interval) (sub now observed) ≡ false

  -- The status already holds what the decision would store.
  decided-holds :
      (t : Status F Q) (d : Decision F Q)
      → t.outcome ≡ d.outcome
      → t.departed ≡ d.departed
      → decided t d ≡ t
  decided-holds t d p q = λ i. record t { outcome = sym p i; departed = sym q i }

  with_recs-holds :
      (o : Object F Q) (t : Status F Q) (d : Decision F Q)
      → t.outcome ≡ d.outcome
      → t.departed ≡ d.departed
      → t.computed_by ≡ o.policy
      → t.trace ≡ d.traces
      → t.containers ≡ d.recs
      → with_recs (record o { status = t }) d ≡ t
  with_recs-holds o t d p q r s c = λ i. record t {
    outcome = sym p i;
    departed = sym q i;
    computed_by = sym r i;
    trace = sym s i;
    containers = sym c i;
  }

  unstamped-kept :
      (o : Object F Q) (t : Status F Q) (d : Decision F Q) (later : Time)
      → same_outcome d.outcome computed ≡ false
      → t.outcome ≡ d.outcome
      → t.departed ≡ d.departed
      → unstamped (record o { status = t }) d later ≡ t
  unfolding unstamped
  unstamped-kept o t d later e p q = rw e (decided-holds t d p q)

  unstamped-again :
      (o : Object F Q) (t : Status F Q) (d : Decision F Q) (later : Time)
      → same_outcome d.outcome computed ≡ true
      → with_recs (record o { status = t }) d ≡ t
      → status_equivalent t t ≡ true
      → leb_ℤ (pos refresh_interval) (sub later t.observed_at) ≡ false
      → unstamped (record o { status = t }) d later ≡ t
  unfolding unstamped
  unstamped-again o t d later e held equivalent soon = rw e (rw (held, equivalent, soon) refl)

  -- What a decision leaves in a status.
  desired_status-decision :
      (l : Lifetimes) (o : Object F Q) (d : Decision F Q) (now : Time)
      → let s = desired_status l o d now in
        (s.outcome ≡ d.outcome)
        × (s.departed ≡ d.departed)
        × (s.observed_resources ≡ o.status.observed_resources)
  unfolding desired_status
  desired_status-decision l o d now = ground arith

  desired_status-computed :
      (l : Lifetimes) (o : Object F Q) (d : Decision F Q) (now : Time)
      → same_outcome d.outcome computed ≡ true
      → let s = desired_status l o d now in
        (s.computed_by ≡ o.policy) × (s.trace ≡ d.traces) × (s.containers ≡ d.recs)
  unfolding desired_status
  desired_status-computed l o d now e = ground (arith, e)

  desired_status-kept :
      (l : Lifetimes) (o : Object F Q) (d : Decision F Q) (now : Time)
      → same_outcome d.outcome computed ≡ false
      → (desired_status l o d now).containers ≡ o.status.containers
  unfolding desired_status
  desired_status-kept l o d now e = ground (arith, e)

  desired-equivalent :
      (l : Lifetimes) (o : Object F Q) (d : Decision F Q) (now : Time)
      → AreMaps o d
      → status_equivalent (stored (desired_status l o d now)) (stored (desired_status l o d now))
        ≡ true
  desired-equivalent l o d now (dc, ds, dr) =
      let s = desired_status l o d now in
      let containers : Distinct String-discrete s.containers =
        elim (Bool-cases (same_outcome d.outcome computed)) [
          | inl e ↦
              subst (Distinct String-discrete) (sym (desired_status-computed l o d now e).2) dr
          | inr e ↦ subst (Distinct String-discrete) (sym (desired_status-kept l o d now e)) dc
        ] in
      status_equivalent_refl ord (stored s) containers
        (subst (Distinct String-discrete) (sym (desired_status-decision l o d now).2) ds)

  unstamped-stored :
      (c : Bool) (l : Lifetimes) (o : Object F Q) (d : Decision F Q) (now later : Time)
      → same_outcome d.outcome computed ≡ c
      → AreMaps o d
      → NoRefresh d (stored (desired_status l o d now)).observed_at later
      → let t = stored (desired_status l o d now) in unstamped (record o { status = t }) d later ≡ t
  unstamped-stored true l o d now later e maps soon =
      let t = stored (desired_status l o d now) in
      let (p, q, _) = desired_status-decision l o d now in
      let (by, tr, cs) = desired_status-computed l o d now e in
      unstamped-again o t d later e (with_recs-holds o t d p q by tr cs)
        (desired-equivalent l o d now maps) (soon e)
  unstamped-stored false l o d now later e maps soon =
      let (p, q, _) = desired_status-decision l o d now in
      unstamped-kept o (stored (desired_status l o d now)) d later e p q

  desired_status-again :
      (l : Lifetimes) (o : Object F Q) (d : Decision F Q) (now later : Time)
      → rfc3339_copy o.created ≡ o.created
      → AreMaps o d
      → NoRefresh d (stored (desired_status l o d now)).observed_at later
      → let t = stored (desired_status l o d now) in
        desired_status l (record o { status = t }) d later ≡ t
  unfolding desired_status
  desired_status-again l o d now later whole maps soon =
      let c = same_outcome d.outcome computed in
      let t = stored (desired_status l o d now) in
      let o' = record o { status = t } in
      ap {A = Status F Q} (λ u. record u { servable_until = stamp l o' u c })
        (unstamped-stored c l o d now later refl maps soon)
      ∙ ap {A = Time} (λ w. record t { servable_until = w })
          (stamp-stored l o (unstamped o d now) c whole)

  is_unchanged_self : (t : Status F Q) → status_equivalent t t ≡ true → is_unchanged t t ≡ true
  unfolding is_unchanged
  is_unchanged_self t h = ground (arith, h)

  -- Recording a decision again, on the object as stored at its first record, calls nothing of the
  -- API: at any later time if the decision is not Computed, and within the refresh interval of the
  -- stored observation if it is. The creation is a whole second, and no map holds a key twice.
  pub record_decision-again :
      {S : Type 0} (api : Client S F Q) (l : Lifetimes) (o : Object F Q) (d : Decision F Q)
      (now later : Time) (s : S)
      → rfc3339_copy o.created ≡ o.created
      → AreMaps o d
      → NoRefresh d (stored (desired_status l o d now)).observed_at later
      → let t = stored (desired_status l o d now) in
        record_decision api (some (record o { status = t })) d later l s ≡ (s, ok tt)
  unfolding record_decision
  record_decision-again api l o d now later s whole maps soon =
      let t = stored (desired_status l o d now) in
      rw
        (
          desired_status-again l o d now later whole maps soon,
          is_unchanged_self t (desired-equivalent l o d now maps),
        )
        refl
