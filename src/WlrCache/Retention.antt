-- ===== src/WlrCache/Retention.antt =====
-- What a sweep deletes (internal/wlrcache/delete.go) against what is still served (read.go).
use k8s_sustain.Prelude.{ℕ, ◌+◌, ◌≤◌, ◌<◌, ◌≡◌, ◌≢◌, ap, ◌∙◌, true, false, some, String, arith}
use k8s_sustain.Prelude.Int.{pos, max_int64}
use k8s_sustain.Prelude.Time.{Time, add, rfc3339_copy, sub-lt_iff}
use k8s_sustain.WlrCache.{
  Object, Status, Lifetimes, is_frozen, window, servable_until, last_computed,
}
use k8s_sustain.WlrCache.Reading.{read, injects}
use k8s_sustain.WlrCache.ReadLaws.{read-injects}
use k8s_sustain.WlrCache.RecordLaws.{stamp_bounds}
use k8s_sustain.WlrCache.Deleting.{Standing, ungoverned, expired}

module _ {F Q : Type 0} where
  window-frozen : (l : Lifetimes) (s : Status F Q) → is_frozen s ≡ true → window l s ≡ l.retention
  unfolding window
  window-frozen l s h = ground arith

  frozen-stamp :
      (l : Lifetimes) (o : Object F Q) (r : ℕ)
      → l.retention ≡ pos r
      → is_frozen o.status ≡ true
      → servable_until l o.created o.status ≤ last_computed o.created o.status.observed_at + r
  unfolding servable_until
  frozen-stamp l o r e frozen =
      let last = last_computed o.created o.status.observed_at in
      let kept : window l o.status ≡ pos r = window-frozen l o.status frozen ∙ e in
      let same : rfc3339_copy (add (rfc3339_copy last) (window l o.status))
          ≡ rfc3339_copy (add (rfc3339_copy last) (pos r)) =
        ap (λ w. rfc3339_copy (add (rfc3339_copy last) w)) kept in
      ground (arith, same, stamp_bounds last r)

  expired-outlived :
      (l : Lifetimes) (o : Object F Q) (policy : String) (s : Standing) (at : Time) (r : ℕ)
      → l.retention ≡ pos r
      → r < max_int64
      → s ≢ ungoverned
      → expired o policy s at l ≡ true
      → last_computed o.created o.status.observed_at + r < at
  unfolding expired
  expired-outlived l o policy s at r e small governed h =
      ground (arith, e, sub-lt_iff (last_computed o.created o.status.observed_at) at r)

  -- No sweep deletes a frozen Recommendation that is still served: of an identity that is Departed
  -- or Conflicted, in the status as in the snapshot, and stamped under the controller's settings,
  -- the object expires only when the webhook has stopped injecting it.
  pub expired-read :
      (l : Lifetimes) (o : Object F Q) (policy : String) (s : Standing) (at later : Time) (r : ℕ)
      → l.retention ≡ pos r
      → r < max_int64
      → is_frozen o.status ≡ true
      → o.status.servable_until ≡ servable_until l o.created o.status
      → s ≢ ungoverned
      → expired o policy s at l ≡ true
      → at ≤ later
      → injects (read (some o) policy later).verdict ≡ false
  expired-read l o policy s at later r e small frozen stamped kept gone order =
      let bound = frozen-stamp l o r e frozen in
      let outlived = expired-outlived l o policy s at r e small kept gone in
      ground (arith, stamped, bound, outlived, (read-injects (some o) policy later).0)
