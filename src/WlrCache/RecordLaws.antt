-- ===== src/WlrCache/RecordLaws.antt =====
-- What Record stores (internal/wlrcache/write.go): what it keeps, what it stamps, how long that
-- is served, and when it writes nothing.
use k8s_sustain.Prelude.{
  ℕ, ◌+◌, ◌*◌, ◌≤◌, ◌<◌, ◌≡◌, sym, ap, ◌∙◌, true, false, some, String-discrete, is_filled, arith,
  is_same_iff, if◌then◌else◌, max,
}
use k8s_sustain.Prelude.Int.{pos, negsuc, ℤ, ◌*ℤ◌, max_ℤ, int64}
use k8s_sustain.Prelude.Time.{Time, add, sub, rfc3339_copy, before, minute, second}
use k8s_sustain.Units.{Quantities}
use k8s_sustain.WlrCache.{
  Object, Lifetimes, computed, same_outcome, is_frozen, window, stamp, staleness_budget,
  refresh_interval, min_staleness_budget, last_computed,
}
use k8s_sustain.WlrCache.Reading.{read, fresh, stale}
use k8s_sustain.WlrCache.Writing.{Decision, desired_status}

max-ge : (m : ℕ) (z : ℤ) → (n : ℕ) × (max_ℤ (pos m) z ≡ pos n) × (m ≤ n)
max-ge m (pos k) = (max m k, ground arith, ground arith)
max-ge m (negsuc k) = (m, ground arith, ground arith)

-- A staleness budget is at least its minimum.
pub staleness_budget_ge :
    (l : Lifetimes) → (n : ℕ) × (staleness_budget l ≡ pos n) × (min_staleness_budget ≤ n)
unfolding staleness_budget
staleness_budget_ge l = max-ge min_staleness_budget (int64 (pos 3 *ℤ l.reconcile_interval))

module _ {F Q : Type 0} ⦃qu : Quantities Q⦄ where
  observed_recent :
      (l : Lifetimes) (o : Object F Q) (d : Decision F Q) (now : Time)
      → same_outcome d.outcome computed ≡ true
      → now ≤ (desired_status l o d now).observed_at + refresh_interval
  unfolding desired_status sub
  observed_recent l o d now e = ground (arith, e)

  observed_before :
      (l : Lifetimes) (o : Object F Q) (d : Decision F Q) (now : Time)
      → o.status.observed_at ≤ now
      → (desired_status l o d now).observed_at ≤ now
  unfolding desired_status
  observed_before l o d now h = ground arith

pos_injective : {m n : ℕ} → pos m ≡ pos n → m ≡ n
pos_injective h = cc

-- The window added to an instant, each at the precision of a second.
pub stamp_bounds :
    (t n : ℕ)
    → (t + n < rfc3339_copy (add (rfc3339_copy t) (pos n)) + 2 * second)
      × (rfc3339_copy (add (rfc3339_copy t) (pos n)) ≤ t + n)
unfolding rfc3339_copy add
stamp_bounds t n = omega arith

module _ {F Q : Type 0} ⦃qu : Quantities Q⦄ where
  computed-stamp :
      (l : Lifetimes) (o : Object F Q) (d : Decision F Q) (now : Time)
      → same_outcome d.outcome computed ≡ true
      → d.departed ≡ false
      → is_filled d.recs ≡ true
      → let s = desired_status l o d now in
        (s.servable_until
          ≡ rfc3339_copy
              (add (rfc3339_copy (last_computed o.created s.observed_at)) (staleness_budget l)))
        × (s.containers ≡ d.recs)
        × (s.computed_by ≡ o.policy)
        × (is_frozen s ≡ false)
  unfolding desired_status stamp window
  computed-stamp l o d now e live filled =
      (ground (arith, e), ground (arith, e), ground (arith, e), ground (arith, e))

  -- A Recommendation of the object's Policy is stale from its stamp on, and fresh before.
  read_thawed :
      (o : Object F Q) (later : Time)
      → is_filled o.status.containers ≡ true
      → o.status.computed_by ≡ o.policy
      → is_frozen o.status ≡ false
      → (read (some o) o.policy later).verdict
        ≡ (if before later o.status.servable_until then fresh else stale)
  unfolding read
  read_thawed o later filled by thawed = ground (
    arith,
    is_same_iff String-discrete o.policy o.policy,
    is_same_iff String-discrete o.status.computed_by o.policy,
  )

  -- What a live identity's Computed decision stores, with a Recommendation and no earlier than the
  -- object's creation and observation, is injected fresh into the pods of the Policy that the
  -- object names until the stamp, and is stale from then on; the stamp lies at least twenty minutes
  -- less two seconds after the decision, and no more than the staleness budget.
  pub desired_status-read :
      (l : Lifetimes) (o : Object F Q) (d : Decision F Q) (now later n : ℕ)
      → same_outcome d.outcome computed ≡ true
      → d.departed ≡ false
      → is_filled d.recs ≡ true
      → o.created ≤ now
      → o.status.observed_at ≤ now
      → staleness_budget l ≡ pos n
      → let s = desired_status l o d now in
        ((read (some (record o { status = s })) o.policy later).verdict
          ≡ (if before later s.servable_until then fresh else stale))
        × (now + 20 * minute ≤ s.servable_until + 2 * second)
        × (s.servable_until ≤ now + n)
  desired_status-read l o d now later n e live filled made seen budget =
      let s = desired_status l o d now in
      let (stamped, recs, by, thawed) = computed-stamp l o d now e live filled in
      let last = last_computed o.created s.observed_at in
      let same : s.servable_until ≡ rfc3339_copy (add (rfc3339_copy last) (pos n)) =
        stamped ∙ ap (λ w. rfc3339_copy (add (rfc3339_copy last) w)) budget in
      let (k, min_budget, ge) = staleness_budget_ge l in
      let facts = stamp_bounds last n in
      let recent = observed_recent l o d now e in
      let observed = observed_before l o d now seen in
      let wide : n ≡ k = pos_injective (sym budget ∙ min_budget) in
      (
        read_thawed (record o { status = s }) later (ap is_filled recs ∙ filled) by thawed,
        ground arith,
        ground arith,
      )
