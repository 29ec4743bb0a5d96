-- ===== src/Recommender/Bounds.antt =====
-- The operator's bounds on a request (Recommender/Resources.antt, Recommender/Coordination.antt,
-- Recommender/Compute.antt).
use k8s_sustain.Prelude.{
  ℕ, ◌≤◌, ◌<◌, ◌≡◌, refl, ◌↔◌, true, Option, none, some, min, max, arith, ◌⊎◌,
}
use k8s_sustain.Units.{Quantities, Floats, QuantityOrder, less, same}
use k8s_sustain.Api.{ResourceKind, Container, RequestsConfig, AutoscalerCoordination}
use k8s_sustain.Autoscaler.{Info}
use k8s_sustain.Recommender.Resources.{config, clamp}
use k8s_sustain.Recommender.Coordination.{Coordinated, coordinate}
use k8s_sustain.Recommender.Compute.{Request, Sizing, final_request, stage_context, size, size_from}
use k8s_sustain.Recommender.Signals.{Contributed, contributions_to, base, adjuster}
use mathlib.Core.Path.{subst}
use k8s_sustain.Prelude.{List, [], ◌∷◌, some_of_else, fst_of_else}

module _ {Q : Type 0} ⦃qu : Quantities Q⦄ (ord : QuantityOrder Q) where
  open ord use {amount, cmp-amount}

  pub less_iff : (p q : Q) → (less p q ≡ true) ↔ (amount p < amount q)
  less_iff p q = ground (arith, cmp-amount p q)

  pub same_iff : (p q : Q) → (same p q ≡ true) ↔ (amount p ≡ amount q)
  same_iff p q = ground (arith, cmp-amount p q)

  -- A number raised to an optional minimum, and capped at an optional maximum.
  abbrev pub at_least : Option Q → ℕ → ℕ
  at_least none n = n
  at_least (some m) n = max n (amount m)

  abbrev pub at_most : Option Q → ℕ → ℕ
  at_most none n = n
  at_most (some m) n = min n (amount m)

  -- The clamp is the cap at the maximum of the value raised to the minimum, on every branch.
  pub amount-clamp :
      (q : Q) (min_q max_q : Option Q)
      → amount (clamp q min_q max_q) ≡ at_most max_q (at_least min_q (amount q))
  unfolding clamp
  amount-clamp q none none = refl
  amount-clamp q (some m) none = ground (arith, cmp-amount q m)
  amount-clamp q none (some m) = ground (arith, cmp-amount m q)
  amount-clamp q (some m) (some n) = ground (arith, cmp-amount q m, cmp-amount n q, cmp-amount n m)

  -- A request respects the bounds: it is no higher than the maximum, and no lower than the minimum
  -- unless it is the maximum, which wins a conflict.
  abbrev pub Respects : Option Q → Option Q → Q → Type 0
  Respects none none q = Unit {0}
  Respects (some m) none q = amount m ≤ amount q
  Respects none (some n) q = amount q ≤ amount n
  Respects (some m) (some n) q =
      (amount q ≤ amount n) × ((amount m ≤ amount q) ⊎ (amount q ≡ amount n))

  pub clamp-Respects : (q : Q) (min_q max_q : Option Q) → Respects min_q max_q (clamp q min_q max_q)
  clamp-Respects q none none = tt
  clamp-Respects q (some m) none = omega (arith, amount-clamp q (some m) none)
  clamp-Respects q none (some n) = omega (arith, amount-clamp q none (some n))
  clamp-Respects q (some m) (some n) = ground (arith, amount-clamp q (some m) (some n))

  module _ {F : Type 0} ⦃fl : Floats F⦄ where
    -- Coordination, when it runs, ends in the clamp.
    coordinate-Respects :
        (q : Q) (res : ResourceKind) (cfg : AutoscalerCoordination F) (info : Info)
        (req : RequestsConfig Q) (co : Coordinated F Q)
        → coordinate q res cfg info req ≡ some co
        → Respects req.min_allowed req.max_allowed co.value
    unfolding coordinate
    coordinate-Respects q res cfg info req co e =
        subst (λ k. Respects req.min_allowed req.max_allowed k.value) (some_of_else _ _ co e)
          (clamp-Respects _ req.min_allowed req.max_allowed)

    final_request-Respects :
        (min_q max_q : Option Q) (q : Q) (o : Option (Coordinated F Q))
        → Respects min_q max_q q
        → ((co : Coordinated F Q) → o ≡ some co → Respects min_q max_q co.value)
        → Respects min_q max_q (final_request q o)
    final_request-Respects min_q max_q q none h k = h
    final_request-Respects min_q max_q q (some co) h k = k co refl

    size_from-Respects :
        (res : ResourceKind) (c : Container Q) (req : Request F Q) (cts : List (Contributed F))
        → let cfg = (config res req.resources).requests in
          Respects cfg.min_allowed cfg.max_allowed (size_from res c req cts).request
    unfolding size_from
    size_from-Respects res c req cts =
        let cfg = (config res req.resources).requests in
        final_request-Respects cfg.min_allowed cfg.max_allowed _ _
          (clamp-Respects _ cfg.min_allowed cfg.max_allowed)
          (coordinate-Respects _ res req.coordination req.auto_info cfg)

    -- Whatever the signals, the headroom and the autoscaler ask for, a computed request respects
    -- the Policy's minAllowed and maxAllowed: it is at most the maximum, and at least the minimum
    -- unless it is the maximum.
    pub size-Respects :
        (res : ResourceKind) (c : Container Q) (req : Request F Q) (s : Sizing F Q)
        → (size res c req).0 ≡ some s
        → let cfg = (config res req.resources).requests in
          Respects cfg.min_allowed cfg.max_allowed s.request
    unfolding size
    size-Respects res c req s e =
        let cfg = (config res req.resources).requests in
        subst (λ k. Respects cfg.min_allowed cfg.max_allowed k.request) (fst_of_else _ _ s _ e).1
          (size_from-Respects res c req
            (contributions_to (stage_context res c req) res (base ∷ adjuster ∷ [])))
