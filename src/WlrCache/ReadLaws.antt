-- ===== src/WlrCache/ReadLaws.antt =====
-- Which pods a stored Recommendation is injected into (internal/wlrcache/read.go).
use k8s_sustain.Prelude.{
  ◌<◌, ◌≡◌, ◌↔◌, true, Option, none, some, String, String-discrete, is_filled, arith, is_same_iff,
  if◌then◌else◌,
}
use k8s_sustain.Prelude.Time.{Time}
use k8s_sustain.WlrCache.{Object}
use k8s_sustain.WlrCache.Reading.{read, injects, held}

module _ {F Q : Type 0} where
  -- The object names the Policy, and holds a Recommendation that the Policy computed.
  abbrev pub Holds : Object F Q → String → Type 0
  Holds o policy =
      (o.policy ≡ policy) × (is_filled o.status.containers ≡ true) × (o.status.computed_by ≡ policy)

  -- There is an object, it holds the Policy's Recommendation, and its stamp has not passed.
  abbrev pub Served : Option (Object F Q) → String → Time → Type 0
  Served none policy now = ⊥
  Served (some o) policy now = Holds o policy × (now < o.status.servable_until)

  -- A pod that opts into a Policy is injected exactly when its identity has an object that names
  -- the Policy and holds a Recommendation which that Policy computed, before its stamp; it is then
  -- injected the Recommendation that the object holds, and nothing is handed out otherwise.
  pub read-injects :
      (known : Option (Object F Q)) (policy : String) (now : Time)
      → let r = read known policy now in
        ((injects r.verdict ≡ true) ↔ Served known policy now)
        × (r.recs ≡ (if injects r.verdict then held known policy else none))
  unfolding read injects held
  read-injects none policy now = ground arith
  read-injects (some o) policy now = ground (
    arith,
    is_same_iff String-discrete o.policy policy,
    is_same_iff String-discrete o.status.computed_by policy,
  )
