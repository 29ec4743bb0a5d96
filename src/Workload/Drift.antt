-- ===== src/Workload/Drift.antt =====
-- When a container's drift from its Recommendation counts (internal/workload/match.go).
use k8s_sustain.Prelude.{
  ℕ, ◌+◌, ◌*◌, ◌/◌, ◌≤◌, ◌<◌, ◌≡◌, ◌↔◌, ap, ◌∙◌, ltb, leb, Bool, true, false, ◌&&◌, ◌||◌, not,
  Option, none, some, arith, max, if◌then◌else◌,
}
use mathlib.Core.Path.{ap₂}
use k8s_sustain.Prelude.Int.{ℤ, pos, ◌-ℤ◌, ◌*ℤ◌, int64, ltb_ℤ, leb_ℤ, int64_small, max_int64}
use k8s_sustain.Units.{Quantities, QuantityOrder, QuantityUnits, same}
use k8s_sustain.Api.{ResourceKind, cpu, memory, ResourceRequirements, ContainerRecommendation}
use k8s_sustain.Workload.Inject.{value_in, apply_to, value_equal}
use k8s_sustain.Workload.InjectLaws.{request_for}
use k8s_sustain.Workload.Sizes.{wanted, apply_to-sizes}
use k8s_sustain.Workload.Tolerance.{Tolerance, within_decrease, band, clamp_decrease}
use k8s_sustain.Workload.Plan.{container_change, is_request_change}

pos_mul : (a b : ℕ) → (pos a *ℤ pos b) ≡ pos (a * b)
unfolding ◌*ℤ◌
pos_mul a b = ground arith

pos_sub_le : (a b : ℕ) → leb_ℤ (pos a -ℤ pos b) (pos 0) ≡ leb a b
unfolding ◌-ℤ◌
pos_sub_le a b = ground arith

pos_sub_lt : (a b c : ℕ) → b < a → ltb_ℤ (pos a -ℤ pos b) (pos c) ≡ ltb a (b + c)
unfolding ◌-ℤ◌
pos_sub_lt a b c h = ground arith

larger : (a b : ℕ) → (if ltb_ℤ (pos a) (pos b) then pos b else pos a) ≡ pos (max a b)
larger a b = ground arith

by_sizes :
    (cur new top : ℕ) (less : Bool)
    → (new < cur → less ≡ ltb cur (new + top))
    → ((if leb cur new then false else less) ≡ true) ↔ ((new < cur) × (cur < new + top))
by_sizes cur new top less h = ground arith

module _ {Q : Type 0} ⦃qu : Quantities Q⦄ where
  band_small :
      (current floor : Q) (p : ℕ)
      → qu.milli_value current / 100 * p ≤ max_int64
      → band current (pos p) floor
        ≡ pos (max (qu.milli_value current / 100 * p) (qu.milli_value floor))
  unfolding band
  band_small current floor p small =
      let part = qu.milli_value current / 100 in
      let fits : int64 (pos part *ℤ pos p) ≡ pos (part * p) =
        ap int64 (pos_mul part p) ∙ int64_small (part * p) small in
      rw fits (larger (part * p) (qu.milli_value floor))

  -- A recommended value is withheld exactly when it is lower than the current one, and by less than
  -- the larger of the floor and the percentage, which is taken of a hundredth of the current value
  -- rounded down, all in thousandths and as far as the product fits an int64.
  within_decrease_iff :
      (current rec floor : Q) (p : ℕ)
      → qu.milli_value current / 100 * p ≤ max_int64
      → let cur = qu.milli_value current in
        let new = qu.milli_value rec in
        (within_decrease current (some rec) (pos p) floor ≡ true)
        ↔ ((new < cur) × (cur < new + max (cur / 100 * p) (qu.milli_value floor)))
  unfolding within_decrease
  within_decrease_iff current rec floor p small =
      let cur = qu.milli_value current in
      let new = qu.milli_value rec in
      let top = max (cur / 100 * p) (qu.milli_value floor) in
      rw (pos_sub_le cur new, band_small current floor p small)
        (by_sizes cur new top (ltb_ℤ (pos cur -ℤ pos new) (pos top)) (pos_sub_lt cur new top))

  abbrev pub percent_of : Tolerance Q → ResourceKind → ℤ
  percent_of tol cpu = tol.cpu_percent
  percent_of tol memory = tol.mem_percent

  abbrev pub floor_of : Tolerance Q → ResourceKind → Q
  floor_of tol cpu = tol.cpu_floor
  floor_of tol memory = tol.mem_floor

  -- A recommended request differs, and is no decrease that the tolerance withholds.
  abbrev pub drifts :
      Tolerance Q → ResourceRequirements Q → ContainerRecommendation Q → ResourceKind → Bool
  drifts tol current rec k =
      let cur = value_in current.requests k in
      elim (request_for rec k) [
        | none ↦ false
        | some q ↦
            not (same cur q)
            && not (within_decrease cur (some q) (percent_of tol k) (floor_of tol k))
      ]

  abbrev differs : ResourceRequirements Q → ContainerRecommendation Q → ResourceKind → Bool
  differs current rec k = elim (request_for rec k) [
    | none ↦ false
    | some q ↦ not (same (value_in current.requests k) q)
  ]

module _ {Q : Type 0} ⦃qu : Quantities Q⦄ (ord : QuantityOrder Q)
    (units : QuantityUnits Q ord) where
  open ord use {amount, cmp-amount}

  same_as :
      (cur out : Q) (q : Option Q)
      → amount out ≡ wanted ord units q (amount cur)
      → same cur out ≡ not (elim q [ none ↦ false | some r ↦ not (same cur r) ])
  same_as cur out none h = ground (arith, cmp-amount cur out)
  same_as cur out (some r) h = ground (arith, cmp-amount cur out, cmp-amount cur r)

  kept_request :
      (k : ResourceKind) (current : ResourceRequirements Q) (rec : ContainerRecommendation Q)
      → same (value_in current.requests k) (value_in (apply_to current rec).0.requests k)
        ≡ not (differs current rec k)
  kept_request k current rec =
      let cur = value_in current.requests k in
      let out = value_in (apply_to current rec).0.requests k in
      let (req, _, _) = apply_to-sizes ord units k current rec in
      same_as cur out (request_for rec k) req

  container_change-differs :
      (current : ResourceRequirements Q) (rec : ContainerRecommendation Q)
      → is_request_change (container_change current rec)
        ≡ (differs current rec cpu || differs current rec memory)
  unfolding container_change value_equal
  container_change-differs current rec =
      ground (arith, kept_request cpu current rec, kept_request memory current rec)

  clamp_decrease-differs :
      (k : ResourceKind) (tol : Tolerance Q) (current : ResourceRequirements Q)
      (rec : ContainerRecommendation Q)
      → differs current (clamp_decrease current rec tol) k ≡ drifts tol current rec k
  unfolding clamp_decrease within_decrease
  clamp_decrease-differs cpu tol current rec = ground arith
  clamp_decrease-differs memory tol current rec = ground arith

  -- A container's change under the clamped Recommendation is a request change exactly when the CPU
  -- or the memory request that is recommended differs from the current one and is no decrease that
  -- the tolerance withholds: no change of a limit makes it one.
  pub container_change-drifts :
      (tol : Tolerance Q) (current : ResourceRequirements Q) (rec : ContainerRecommendation Q)
      → is_request_change (container_change current (clamp_decrease current rec tol))
        ≡ (drifts tol current rec cpu || drifts tol current rec memory)
  container_change-drifts tol current rec =
      container_change-differs current (clamp_decrease current rec tol)
      ∙ ap₂ ◌||◌ (clamp_decrease-differs cpu tol current rec)
          (clamp_decrease-differs memory tol current rec)
