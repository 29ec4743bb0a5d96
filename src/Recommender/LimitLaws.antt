-- ===== src/Recommender/LimitLaws.antt =====
-- What the limit chain makes of the Policy's limit strategy (Recommender/Limits.antt).
use k8s_sustain.Prelude.{
  ◌≤◌, ◌≡◌, refl, inl, inr, Bool, true, false, Option, none, some, [], ◌∷◌, arith, max,
  if◌then◌else◌, Bool-cases,
}
use k8s_sustain.Units.{Quantities, Floats, QuantityOrder, less}
use k8s_sustain.Api.{ResourceKind, cpu, memory}
use k8s_sustain.Recommender.Resources.{of}
use k8s_sustain.Recommender.Signals.{StageContext, limit_adjuster, contributions_to}
use k8s_sustain.Recommender.Limits.{
  Limit, LimitBasis, keep_limit, no_limit, strategy_of, strategy_limit, set_to, is_guarded,
  recommendation, limit_chain,
}

module _ {Q : Type 0} ⦃qu : Quantities Q⦄ where
  abbrev guard : Q → Limit Q → Limit Q
  guard request l = if is_guarded request l then set_to request else l

  keep_value :
      (request : Q) (o : Option Q)
      → let l : Limit Q = record { value = o; removed = false; set = false } in
        recommendation (guard request l) ≡ elim o [
          | none ↦ (none, false)
          | some own ↦ if less own request then (some request, false) else (none, false)
        ]
  unfolding is_guarded recommendation
  keep_value request none = refl
  keep_value request (some own) = elim (Bool-cases (less own request)) [
    | inl low ↦ rw low
    | inr high ↦ rw high
  ]

module _ {Q : Type 0} ⦃qu : Quantities Q⦄ (ord : QuantityOrder Q) where
  open ord use {amount, cmp-amount}

  -- The limit that a strategy gives, raised to the request where it lies below; no limit stays none.
  abbrev pub Guarded : Q → Option Q → Option Q → Type 0
  Guarded request none l = l ≡ none
  Guarded request (some v) l = (w : Q) × (l ≡ some w) × (amount w ≡ max (amount v) (amount request))

  guard_value :
      (request : Q) (o : Option Q) (removed set : Bool)
      → let l : Limit Q = record { value = o; removed = removed; set = set } in
        Guarded request o (guard request l).value
  unfolding is_guarded
  guard_value request none removed set = refl
  guard_value request (some v) removed set = elim (Bool-cases (less v request)) [
    | inl low ↦ rw low (request, refl, ground (arith, cmp-amount v request))
    | inr high ↦ rw high (v, refl, ground (arith, cmp-amount v request))
  ]

  Guarded-ge :
      (request : Q) (o : Option Q) (v : Q) {l : Option Q}
      → Guarded request o l
      → l ≡ some v
      → amount request ≤ amount v
  Guarded-ge request none v g e = cc
  Guarded-ge request (some u) v g e = ground arith

module _ {F Q : Type 0} ⦃fl : Floats F⦄ ⦃qu : Quantities Q⦄ (ord : QuantityOrder Q) where
  open ord use {amount, cmp-amount}

  -- No signal is a limit adjuster.
  no_limit_adjusters :
      (sc : StageContext F Q) (res : ResourceKind)
      → contributions_to sc res (limit_adjuster ∷ []) ≡ []
  unfolding contributions_to
  no_limit_adjusters sc cpu = refl
  no_limit_adjusters sc memory = refl

  abbrev pub basis_of : ResourceKind → StageContext F Q → Q → LimitBasis F Q
  basis_of res sc request = record {
    res = res;
    request = request;
    current = sc.container.resources;
    cfg = sc.config.limits;
  }

  -- The chain with its empty loop taken out.
  limit_chain_lem :
      (res : ResourceKind) (sc : StageContext F Q) (request : Q)
      → (limit_chain res sc request).0
        ≡ guard request (strategy_limit (strategy_of sc.config.limits) (basis_of res sc request)).0
  unfolding limit_chain
  limit_chain_lem res sc request = rw (no_limit_adjusters sc res)

  -- The limit of a container's resource is the one of the Policy's strategy, raised to the request
  -- where it is lower; where the strategy leaves none, there is none.
  pub limit_chain-Guarded :
      (res : ResourceKind) (sc : StageContext F Q) (request : Q)
      → Guarded ord request
          (strategy_limit (strategy_of sc.config.limits) (basis_of res sc request)).0.value
          (limit_chain res sc request).0.value
  limit_chain-Guarded res sc request = rw (limit_chain_lem res sc request) (
      let l = (strategy_limit (strategy_of sc.config.limits) (basis_of res sc request)).0 in
      guard_value ord request l.value l.removed l.set)

  -- A limit is never below the request it is derived with, and so never refused for that.
  pub limit_chain-ge :
      (res : ResourceKind) (sc : StageContext F Q) (request v : Q)
      → (limit_chain res sc request).0.value ≡ some v
      → amount request ≤ amount v
  limit_chain-ge res sc request v e =
      Guarded-ge ord request _ v (limit_chain-Guarded res sc request) e

  -- The recommendation a Policy without a strategy, or one that keeps the limit, makes for a
  -- container: nothing where its own limit covers the request or it has none, else the request.
  pub keep_limit_lem :
      (res : ResourceKind) (sc : StageContext F Q) (request : Q)
      → strategy_of sc.config.limits ≡ keep_limit
      → recommendation (limit_chain res sc request).0
        ≡ elim (of res sc.container.resources.limits) [
          | none ↦ (none, false)
          | some own ↦ if less own request then (some request, false) else (none, false)
        ]
  keep_limit_lem res sc request e =
      rw (limit_chain_lem res sc request, e) (unfold strategy_limit in keep_value request _)

  -- Under noLimit the recommendation strips the limit, whatever the container declares.
  pub no_limit_lem :
      (res : ResourceKind) (sc : StageContext F Q) (request : Q)
      → strategy_of sc.config.limits ≡ no_limit
      → recommendation (limit_chain res sc request).0 ≡ (none, true)
  unfolding recommendation strategy_limit is_guarded
  no_limit_lem res sc request e = rw (limit_chain_lem res sc request, e)
