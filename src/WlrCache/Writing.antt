-- ===== src/WlrCache/Writing.antt =====
-- internal/wlrcache/write.go: Request, Ensure and Record over the API's client.
use k8s_sustain.Prelude.{
  Bool, true, false, ◌&&◌, ◌||◌, not, Option, none, some, List, [], ◌∷◌, String, String-discrete,
  lookup, insert, is_some, is_filled, ◌==◌, if◌then◌else◌,
}
use k8s_sustain.Prelude.Int.{pos, leb_ℤ}
use k8s_sustain.Prelude.Time.{Time, zero_time, sub}
use k8s_sustain.Units.{Quantities}
use k8s_sustain.Api.{ContainerRecommendation, ContainerTrace}
use k8s_sustain.WlrCache.{
  WorkloadReference, Outcome, undecided, computed, same_outcome, same_text, Snapshot, Status,
  Object, Lifetimes, stamp, observed_equal, status_equivalent, refresh_interval,
}

abbrev pub same_ref : WorkloadReference → WorkloadReference → Bool
same_ref a b =
    same_text a.kind b.kind && same_text a.namespace b.namespace && same_text a.name b.name

module _ {Q : Type 0} where
  -- A name of the first snapshot that the second lacks.
  unfoldable pub has_new_name : Snapshot Q → Snapshot Q → Bool
  unfolding String-discrete
  has_new_name [] stored = false
  has_new_name ((name, _) ∷ observed) stored =
      not (is_some (lookup String-discrete name stored)) || has_new_name observed stored

  -- `maps.Copy`: every entry of the second map is written into the first.
  unfoldable pub copy_into : Snapshot Q → Snapshot Q → Snapshot Q
  unfolding String-discrete
  copy_into m [] = m
  copy_into m ((name, o) ∷ source) = copy_into (insert String-discrete name o m) source

module _ {F Q : Type 0} where
  unfoldable pub should_request : Option (Object F Q) → String → Snapshot Q → Bool
  unfolding has_new_name
  should_request none policy observed = true
  should_request (some known) policy observed =
      if not (same_text known.policy policy) || not (is_filled observed)
      then false
      else if not known.status.departed && is_filled known.status.observed_resources
      then false
      else has_new_name observed known.status.observed_resources

  abbrev pub no_status : Status F Q
  no_status = record {
    observed_at = zero_time;
    outcome = undecided;
    computed_by = "";
    departed = false;
    servable_until = zero_time;
    containers = [];
    trace = [];
    observed_resources = [];
  }

  abbrev pub with_snapshot : Object F Q → Snapshot Q → Object F Q
  with_snapshot known observed = record known {
    status = record known.status { observed_resources = observed };
  }

-- What one pass decided for an identity.
pub record Decision (F Q : Type 0) : Type 0 where
  pub outcome : Outcome
  pub recs : List (String × ContainerRecommendation Q)
  pub traces : List (String × ContainerTrace F Q)
  pub departed : Bool

module _ {F Q : Type 0} ⦃qu : Quantities Q⦄ where
  -- The status that Ensure patches in.
  unfoldable pub ensured_status : Lifetimes → Object F Q → Option (Snapshot Q) → Status F Q
  ensured_status l known observed =
      let present = record known.status {
        departed = false;
        observed_resources = elim observed [
          | none ↦ known.status.observed_resources
          | some snap ↦ snap
        ];
      } in
      record present { servable_until = stamp l known present false }

  -- Whether Ensure leaves the status alone.
  unfoldable pub is_settled : Object F Q → Option (Snapshot Q) → Bool
  is_settled known none = not known.status.departed
  is_settled known (some snap) =
      not known.status.departed && observed_equal known.status.observed_resources snap

  abbrev pub decided : Status F Q → Decision F Q → Status F Q
  decided status d = record status { outcome = d.outcome; departed = d.departed }

  -- A Computed decision: the Recommendation, attributed to the Policy that the object names.
  abbrev pub with_recs : Object F Q → Decision F Q → Status F Q
  with_recs known d = record (decided known.status d) {
    computed_by = known.policy;
    trace = d.traces;
    containers = d.recs;
  }

  abbrev pub is_refresh : Object F Q → Decision F Q → Time → Bool
  is_refresh known d now =
      not (status_equivalent known.status (with_recs known d))
      || leb_ℤ (pos refresh_interval) (sub now known.status.observed_at)

  unfoldable pub unstamped : Object F Q → Decision F Q → Time → Status F Q
  unstamped known d now =
      if not (same_outcome d.outcome computed)
      then decided known.status d
      else if is_refresh known d now
      then record (with_recs known d) { observed_at = now }
      else with_recs known d

  -- The status that Record stores.
  unfoldable pub desired_status : Lifetimes → Object F Q → Decision F Q → Time → Status F Q
  unfolding unstamped
  desired_status l known d now = record (unstamped known d now) {
    servable_until = stamp l known (unstamped known d now) (same_outcome d.outcome computed);
  }

  -- Whether Record has nothing to write.
  unfoldable pub is_unchanged : Status F Q → Status F Q → Bool
  is_unchanged known desired =
      status_equivalent known desired
      && (desired.observed_at == known.observed_at)
      && (desired.servable_until == known.servable_until)
