-- ===== src/WlrCache/History.antt =====
-- What becomes of one stored object over the writes of internal/wlrcache, each a merge patch of what
-- its writer knew onto the object as it stands, and what a pod is injected in the end.
use k8s_sustain.Prelude.{
  ◌≡◌, ◌≢◌, ◌⊎◌, inl, inr, ◌∙◌, sym, refl, true, false, Bool, Option, none, some, List, [], String,
  arith, if◌then◌else◌, String-discrete, is_same_iff,
}
use k8s_sustain.Prelude.Time.{Time}
use k8s_sustain.Units.{Quantities}
use k8s_sustain.Api.{ContainerRecommendation}
use k8s_sustain.WlrCache.{
  WorkloadReference, Snapshot, Status, Object, Lifetimes, computed, same_outcome,
}
use k8s_sustain.WlrCache.Reading.{read, injects, held}
use k8s_sustain.WlrCache.ReadLaws.{read-injects}
use k8s_sustain.WlrCache.Writing.{Decision, with_snapshot, ensured_status, desired_status}

-- A Recommendation, and the Policy that the object named when it was recorded.
abbrev pub Computation : Type 0 → Type 0
Computation Q = String × List (String × ContainerRecommendation Q)

-- A field that a merge patch from one object to another leaves: untouched where the two agree on
-- it, and the other's where they do not.
abbrev pub Patched : {A : Type 0} (known desired current left : A) → Type 0
Patched known desired current left =
    ((desired ≡ known) × (left ≡ current)) ⊎ ((desired ≢ known) × (left ≡ desired))

kept_field :
    {A : Type 0} (known desired current left : A)
    → desired ≡ known
    → Patched known desired current left
    → left ≡ current
kept_field known desired current left e (inl (_, h)) = h
kept_field known desired current left e (inr (n, h)) = absurd (n e)

written_field :
    {A : Type 0} (known desired current left : A)
    → known ≡ current
    → Patched known desired current left
    → left ≡ desired
written_field known desired current left e (inl (f, h)) = h ∙ (sym e ∙ sym f)
written_field known desired current left e (inr (n, h)) = h

module _ {F Q : Type 0} ⦃qu : Quantities Q⦄ where
  -- The last Computed decision, after one more record.
  abbrev pub noted : Object F Q → Decision F Q → Option (Computation Q) → Option (Computation Q)
  noted o d last = if◌then◌else◌ (same_outcome d.outcome computed) (some (o.policy, d.recs)) last

  -- What a patch leaves of the Recommendation and its Policy; nothing is said of the other fields.
  abbrev pub Merges : (known desired current left : Status F Q) → Type 0
  Merges known desired current left =
      Patched known.containers desired.containers current.containers left.containers
      × Patched known.computed_by desired.computed_by current.computed_by left.computed_by

  -- The states of an object from its creation on, each with the last Computed decision recorded.
  -- What a claim, Ensure and Request patch may be computed against any object, stale or not; Record
  -- is given one that holds the Recommendation and its Policy as they stand.
  pub data Reach (first : Object F Q) : Object F Q → Option (Computation Q) → Type 0 where
    created : Reach first first none
    claimed :
        {o : Object F Q} {last : Option (Computation Q)} (ref : WorkloadReference)
        (policy label : String)
        → Reach first o last
        → Reach first (record o { ref = ref; policy = policy; policy_label = label }) last
    ensured :
        {o : Object F Q} {last : Option (Computation Q)} (known : Object F Q) (l : Lifetimes)
        (observed : Option (Snapshot Q)) (s : Status F Q)
        → Merges known.status (ensured_status l known observed) o.status s
        → Reach first o last
        → Reach first (record o { status = s }) last
    requested :
        {o : Object F Q} {last : Option (Computation Q)} (known : Object F Q)
        (observed : Snapshot Q) (s : Status F Q)
        → Merges known.status (with_snapshot known observed).status o.status s
        → Reach first o last
        → Reach first (record o { status = s }) last
    recorded :
        {o : Object F Q} {last : Option (Computation Q)} (known : Object F Q) (l : Lifetimes)
        (d : Decision F Q) (now : Time) (s : Status F Q)
        → known.status.containers ≡ o.status.containers
        → known.status.computed_by ≡ o.status.computed_by
        → Merges known.status (desired_status l known d now) o.status s
        → Reach first o last
        → Reach first (record o { status = s }) (noted known d last)

  -- What the status holds is the last Computed decision.
  abbrev Tracks : Status F Q → Option (Computation Q) → Type 0
  Tracks s none = s.containers ≡ []
  Tracks s (some (policy, recs)) = (s.containers ≡ recs) × (s.computed_by ≡ policy)

  same_holdings :
      (last : Option (Computation Q)) (s t : Status F Q)
      → t.containers ≡ s.containers
      → t.computed_by ≡ s.computed_by
      → Tracks s last
      → Tracks t last
  same_holdings none s t e f h = cc
  same_holdings (some (policy, recs)) s t e f (h, k) = (cc, cc)

  recorded-Tracks :
      (is_computed : Bool) (last : Option (Computation Q)) (l : Lifetimes) (o : Object F Q)
      (d : Decision F Q) (now : Time)
      → same_outcome d.outcome computed ≡ is_computed
      → Tracks o.status last
      → Tracks (desired_status l o d now) (if is_computed then some (o.policy, d.recs) else last)
  unfolding desired_status
  recorded-Tracks true last l o d now e h = (ground (arith, e), ground (arith, e))
  recorded-Tracks false last l o d now e h =
      same_holdings last o.status (desired_status l o d now) (ground (arith, e)) (ground (arith, e))
        h

  Reach-Tracks :
      {first o : Object F Q} {last : Option (Computation Q)}
      → first.status.containers ≡ []
      → Reach first o last
      → Tracks o.status last
  unfolding ensured_status
  Reach-Tracks h created = h
  Reach-Tracks h (claimed ref policy label r) = Reach-Tracks h r
  Reach-Tracks h (ensured {o = o} {last = last} known l observed s (p, q) r) =
      same_holdings last o.status s (kept_field _ _ _ _ refl p) (kept_field _ _ _ _ refl q)
        (Reach-Tracks h r)
  Reach-Tracks h (requested {o = o} {last = last} known observed s (p, q) r) =
      same_holdings last o.status s (kept_field _ _ _ _ refl p) (kept_field _ _ _ _ refl q)
        (Reach-Tracks h r)
  Reach-Tracks h (recorded {o = o} {last = last} known l d now s e f (p, q) r) =
      same_holdings (noted known d last) (desired_status l known d now) s
        (written_field _ _ _ _ e p) (written_field _ _ _ _ f q)
        (recorded-Tracks (same_outcome d.outcome computed) last l known d now refl
          (same_holdings last o.status known.status e f (Reach-Tracks h r)))

  Tracks-read :
      (last : Option (Computation Q)) (o : Object F Q) (policy : String) (now : Time)
      → Tracks o.status last
      → injects (read (some o) policy now).verdict ≡ true
      → (recs : List (String × ContainerRecommendation Q)) × (last ≡ some (policy, recs))
        × ((read (some o) policy now).recs ≡ some recs)
  unfolding held
  Tracks-read none o policy now h served =
      let ((_, filled, _), _) = (read-injects (some o) policy now).0.0 served in ground arith
  Tracks-read (some (p, recs)) o policy now (h, k) served =
      let ((_, filled, by), _) = (read-injects (some o) policy now).0.0 served in
      (
        recs,
        cc,
        ground (
          arith,
          is_same_iff String-discrete o.status.computed_by policy,
          (read-injects (some o) policy now).1,
        ),
      )

  -- Whatever claims, snapshots and records an object that was created without a Recommendation has
  -- gone through, claims and snapshots computed against any object, and each record against one that
  -- held the Recommendation and its Policy as they stood: a pod is only ever injected what the last
  -- Computed decision stored, and only if the object it was recorded into named the pod's Policy.
  pub Reach-read :
      (first o : Object F Q) (last : Option (Computation Q)) (policy : String) (now : Time)
      → first.status.containers ≡ []
      → Reach first o last
      → injects (read (some o) policy now).verdict ≡ true
      → (recs : List (String × ContainerRecommendation Q)) × (last ≡ some (policy, recs))
        × ((read (some o) policy now).recs ≡ some recs)
  Reach-read first o last policy now h r = Tracks-read last o policy now (Reach-Tracks h r)
