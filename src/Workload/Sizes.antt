-- ===== src/Workload/Sizes.antt =====
-- The sizes that a container ends up with (internal/workload/inject.go), as numbers: its request
-- never exceeds its limit, and applying the same Recommendation again changes nothing.
use k8s_sustain.Prelude.{
  ℕ, ◌≤◌, ◌≡◌, refl, ap, Bool, true, false, not, Option, none, some, lookup, arith, max,
}
use k8s_sustain.Units.{Quantities, QuantityOrder, QuantityUnits}
use k8s_sustain.Api.{
  ResourceKind, cpu, memory, ResourceKind-discrete, ResourceRequirements, ContainerRecommendation,
}
use k8s_sustain.Workload.Inject.{or_zero, apply_to, value_equal, value_in}
use k8s_sustain.Workload.InjectLaws.{
  set_one, limit_one, guard_one, request_for, limit_for, removes_for, apply_to-lookup,
}

module _ {Q : Type 0} ⦃qu : Quantities Q⦄ (ord : QuantityOrder Q)
    (units : QuantityUnits Q ord) where
  open ord use {amount, cmp-amount}
  open units use {amount-zero_quantity}

  abbrev pub size_of : Option Q → ℕ
  size_of o = amount (or_zero o)

  -- What is asked for, or what there is.
  abbrev pub wanted : Option Q → ℕ → ℕ
  wanted none n = n
  wanted (some q) n = amount q

  -- A limit covers a request; where either is absent there is nothing to cover.
  abbrev pub Covers : Option Q → Option Q → Type 0
  Covers (some limit) (some req) = amount req ≤ amount limit
  Covers _ _ = Unit {0}

  set_one-size : (cur q : Option Q) → size_of (set_one cur q) ≡ wanted q (size_of cur)
  set_one-size cur none = refl
  set_one-size none (some q) = ground (arith, cmp-amount (or_zero none) q)
  set_one-size (some c) (some q) = ground (arith, cmp-amount c q)

  guard_one-Covers : (req limit : Option Q) → Covers (guard_one req limit) req
  guard_one-Covers (some r) (some l) = ground (arith, cmp-amount r l)
  guard_one-Covers none none = tt
  guard_one-Covers (some r) none = tt
  guard_one-Covers none (some l) = tt

  abbrev pub larger : Option Q → Option Q → ℕ
  larger none req = 0
  larger (some l) none = amount l
  larger (some l) (some r) = max (amount l) (amount r)

  -- The guard's limit is the larger of both, and there is none where there was none.
  guard_one-size : (req limit : Option Q) → size_of (guard_one req limit) ≡ larger limit req
  guard_one-size none none = amount-zero_quantity
  guard_one-size (some r) none = amount-zero_quantity
  guard_one-size none (some l) = refl
  guard_one-size (some r) (some l) = ground (arith, cmp-amount r l)

  set_one-again : (c q : Option Q) → set_one (set_one c q) q ≡ set_one c q
  set_one-again c none = refl
  set_one-again none (some q) = ground (arith, cmp-amount (or_zero none) q, cmp-amount q q)
  set_one-again (some c) (some q) = ground (arith, cmp-amount c q, cmp-amount q q)

  guard_one-again :
      (x l p : Option Q)
      → guard_one x (set_one (guard_one x (set_one l p)) p) ≡ guard_one x (set_one l p)
  guard_one-again none l none = refl
  guard_one-again none l (some p) = set_one-again l (some p)
  guard_one-again (some x) none none = refl
  guard_one-again (some x) (some l) none = ground (arith, cmp-amount x l, cmp-amount x x)
  guard_one-again (some x) none (some p) = ground (
    arith,
    cmp-amount x x,
    cmp-amount x p,
    cmp-amount p p,
    cmp-amount (or_zero none) p,
    amount-zero_quantity,
  )
  guard_one-again (some x) (some l) (some p) =
      ground (arith, cmp-amount x l, cmp-amount x p, cmp-amount x x, cmp-amount l p, cmp-amount p p)

  -- One resource, written and guarded twice with the same Recommendation.
  limit-again :
      (r l q p : Option Q) (remove : Bool)
      → let r1 = set_one r q in
        let l1 = guard_one r1 (limit_one l p remove) in
        guard_one (set_one r1 q) (limit_one l1 p remove) ≡ l1
  limit-again r l q p true = rw (set_one-again r q)
  limit-again r l q p false = rw (set_one-again r q) (guard_one-again (set_one r q) l p)

  -- Whatever the container declares, it ends up with the recommended request, or its own where
  -- none is recommended; its limit is the larger of that request and the limit that is recommended
  -- or kept, and there is none where that is absent or stripped; no request exceeds its limit.
  pub apply_to-sizes :
      (k : ResourceKind) (current : ResourceRequirements Q) (rec : ContainerRecommendation Q)
      → let out = (apply_to current rec).0 in
        let req = lookup ResourceKind-discrete k out.requests in
        let limit = lookup ResourceKind-discrete k out.limits in
        let own = lookup ResourceKind-discrete k current.limits in
        (size_of req
          ≡ wanted (request_for rec k) (size_of (lookup ResourceKind-discrete k current.requests)))
        × (size_of limit ≡ larger (limit_one own (limit_for rec k) (removes_for rec k)) req)
        × Covers limit req
  apply_to-sizes k current rec =
      let r = lookup ResourceKind-discrete k current.requests in
      let l = lookup ResourceKind-discrete k current.limits in
      let (req, limit) = apply_to-lookup k current rec in
      rw (req, limit)
        (
          set_one-size r (request_for rec k),
          guard_one-size (set_one r (request_for rec k))
              (limit_one l (limit_for rec k) (removes_for rec k)),
          guard_one-Covers (set_one r (request_for rec k))
              (limit_one l (limit_for rec k) (removes_for rec k)),
        )

  abbrev SameAt : ResourceKind → ResourceRequirements Q → ResourceRequirements Q → Type 0
  SameAt k a b =
      (lookup ResourceKind-discrete k a.requests ≡ lookup ResourceKind-discrete k b.requests)
      × (lookup ResourceKind-discrete k a.limits ≡ lookup ResourceKind-discrete k b.limits)

  SameAt-value_equal :
      (a b : ResourceRequirements Q) → SameAt cpu b a → SameAt memory b a → value_equal a b ≡ true
  unfolding value_equal
  SameAt-value_equal a b (rc, lc) (rm, lm) =
      rw (rc, lc, rm, lm)
        (ground (
          arith,
          cmp-amount (value_in a.requests cpu) (value_in a.requests cpu),
          cmp-amount (value_in a.limits cpu) (value_in a.limits cpu),
          cmp-amount (value_in a.requests memory) (value_in a.requests memory),
          cmp-amount (value_in a.limits memory) (value_in a.limits memory),
        ))

  again-SameAt :
      (k : ResourceKind) (current : ResourceRequirements Q) (rec : ContainerRecommendation Q)
      → let out = (apply_to current rec).0 in SameAt k (apply_to out rec).0 out
  again-SameAt k current rec =
      let r = lookup ResourceKind-discrete k current.requests in
      let l = lookup ResourceKind-discrete k current.limits in
      let out = (apply_to current rec).0 in
      let (req, limit) = apply_to-lookup k current rec in
      let (req', limit') = apply_to-lookup k out rec in
      (
        rw (req', req) (set_one-again r (request_for rec k)),
        rw (limit', req, limit)
            (limit-again r l (request_for rec k) (limit_for rec k) (removes_for rec k)),
      )

  -- A container at its Recommendation is left alone: applying it again changes no request and no
  -- limit, the limits that the guard raised included.
  pub apply_to-apply_to :
      (current : ResourceRequirements Q) (rec : ContainerRecommendation Q)
      → (apply_to (apply_to current rec).0 rec).1.1 ≡ false
  unfolding apply_to
  apply_to-apply_to current rec =
      let out = (apply_to current rec).0 in
      ap not (
        SameAt-value_equal out (apply_to out rec).0 (again-SameAt cpu current rec)
          (again-SameAt memory current rec))
