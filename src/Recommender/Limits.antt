-- ===== src/Recommender/Limits.antt =====
-- internal/recommender/limit.go: the limit of a container's resource, by the Policy's strategy,
-- then the limit adjusters, then the guard that keeps it no lower than the request.
use k8s_sustain.Prelude.{
  ℕ, suc, Bool, true, false, Option, none, some, List, [], ◌∷◌, ◌++◌, String, is_some,
  if◌then◌else◌,
}
use k8s_sustain.Prelude.Int.{pos}
use k8s_sustain.Units.{decimal_si, binary_si, Quantities, Floats, less}
use k8s_sustain.Api.{ResourceKind, ResourceRequirements, LimitsConfig, Fact, factor, TraceStage}
use k8s_sustain.Recommender.Resources.{of, with_headroom}
use k8s_sustain.Recommender.Signals.{
  StageContext, Contributed, limit_adjuster, contributions_to, stages_of,
}

pub record Limit (Q : Type 0) : Type 0 where
  -- none for no limit
  pub value : Option Q
  pub removed : Bool
  -- whether the Recommendation sets the value; otherwise the container keeps its own limit
  pub set : Bool

pub data Strategy : Type 0 where
  keep_limit no_limit equals_to_request requests_limits_ratio keep_limit_request_ratio : Strategy

abbrev pub strategies : List Strategy
strategies =
    keep_limit ∷ no_limit ∷ equals_to_request ∷ requests_limits_ratio ∷ keep_limit_request_ratio
    ∷ []

abbrev pub strategy_name : Strategy → String
strategy_name keep_limit = "keepLimit"
strategy_name no_limit = "noLimit"
strategy_name equals_to_request = "equalsToRequest"
strategy_name requests_limits_ratio = "requestsLimitsRatio"
strategy_name keep_limit_request_ratio = "keepLimitRequestRatio"

module _ {F : Type 0} where
  unfoldable pub chosen : Strategy → LimitsConfig F → Bool
  chosen keep_limit cfg = cfg.keep_limit
  chosen no_limit cfg = cfg.no_limit
  chosen equals_to_request cfg = cfg.equals_to_request
  chosen requests_limits_ratio cfg = is_some cfg.requests_limits_ratio
  chosen keep_limit_request_ratio cfg = cfg.keep_limit_request_ratio

  first_chosen : List Strategy → LimitsConfig F → Strategy
  unfolding chosen
  first_chosen [] cfg = keep_limit
  first_chosen (s ∷ ss) cfg = let rest = first_chosen ss cfg in if chosen s cfg then s else rest

  -- The first strategy that the Policy chooses, keepLimit when it chooses none.
  unfoldable pub strategy_of : LimitsConfig F → Strategy
  unfolding first_chosen
  strategy_of cfg = first_chosen strategies cfg

pub record LimitBasis (F Q : Type 0) : Type 0 where
  pub res : ResourceKind
  pub request : Q
  pub current : ResourceRequirements Q
  pub cfg : LimitsConfig F

module _ {Q : Type 0} where
  -- The limit as a Recommendation carries it.
  unfoldable pub recommendation : Limit Q → Option Q × Bool
  recommendation l = if l.set then (l.value, false) else (none, l.removed)

  abbrev pub set_to : Q → Limit Q
  set_to q = record { value = some q; removed = false; set = true }

  module _ {F : Type 0} where
    unfoldable pub limit_stage : Limit Q → String → List (String × Fact F Q) → TraceStage F Q
    limit_stage l name facts = record {
      stage = name;
      value = l.value;
      removed = l.removed;
      facts = facts;
    }

module _ {Q : Type 0} ⦃qu : Quantities Q⦄ where
  -- One adjuster's turn: it raises a limit that is there, and adds none.
  raise_once : Q → ℕ → Limit Q × Option ℕ → Limit Q × Option ℕ
  raise_once q i (l, winner) = elim l.value [
    | none ↦ (l, winner)
    | some v ↦ if less v q then (set_to q, some i) else (l, winner)
  ]

  unfoldable pub is_guarded : Q → Limit Q → Bool
  is_guarded request l = elim l.value [ none ↦ false | some v ↦ less v request ]

module _ {F Q : Type 0} ⦃fl : Floats F⦄ ⦃qu : Quantities Q⦄ where
  -- Rounded up: memory in whole bytes, CPU in millicores.
  unfoldable pub scale_by_ratio : Q → F → Q
  scale_by_ratio request ratio = elim (qu.format request) [
    | binary_si ↦
        qu.new_quantity (fl.to_int (fl.ceil (fl.mul (fl.of_int (pos (qu.value request))) ratio)))
          (qu.format request)
    | decimal_si ↦
        qu.new_milli_quantity
          (fl.to_int (fl.ceil (fl.mul (fl.of_int (pos (qu.milli_value request))) ratio)))
          (qu.format request)
  ]

  abbrev own_limit : LimitBasis F Q → Limit Q × List (String × Fact F Q)
  own_limit b = (record { value = of b.res b.current.limits; removed = false; set = false }, [])

  ratio_limit : Q → F → Limit Q × List (String × Fact F Q)
  unfolding scale_by_ratio
  ratio_limit request ratio = (set_to (scale_by_ratio request ratio), ("ratio", factor ratio) ∷ [])

  -- The ratio of a configuration without one is a nil dereference, which `chosen` rules out; the
  -- container's own limit stands there.
  unfoldable pub strategy_limit : Strategy → LimitBasis F Q → Limit Q × List (String × Fact F Q)
  unfolding ratio_limit
  strategy_limit keep_limit b = own_limit b
  strategy_limit no_limit b = (record { value = none; removed = true; set = false }, [])
  strategy_limit equals_to_request b = (set_to b.request, [])
  strategy_limit requests_limits_ratio b = elim b.cfg.requests_limits_ratio [
    | some r ↦ ratio_limit b.request r
    | none ↦ own_limit b
  ]
  strategy_limit keep_limit_request_ratio b = elim (of b.res b.current.limits) [
    | none ↦ own_limit b
    | some own ↦ elim (of b.res b.current.requests) [
      | none ↦ own_limit b
      | some req ↦
          ratio_limit b.request
            (fl.div (fl.of_int (pos (qu.milli_value own))) (fl.of_int (pos (qu.milli_value req))))
    ]
  ]

  -- The loop over the contributions of the limit adjusters, each rounded as a request is.
  unfoldable pub raise_limit :
      ResourceKind → ℕ → List (Contributed F) → Limit Q × Option ℕ → Limit Q × Option ℕ
  unfolding raise_once
  raise_limit res i [] acc = acc
  raise_limit res i (ct ∷ cts) acc =
      raise_limit res (suc i) cts (raise_once (with_headroom res ct.value none) i acc)

  -- `limitChain`, with the request that the context carries.
  unfoldable pub limit_chain : ResourceKind → StageContext F Q → Q → Limit Q × List (TraceStage F Q)
  unfolding strategy_of strategy_limit raise_limit is_guarded
  limit_chain res sc request =
      let cfg = sc.config.limits in
      let s = strategy_of cfg in
      let (l, facts) =
        strategy_limit s
          (record { res = res; request = request; current = sc.container.resources; cfg = cfg }) in
      let raised = contributions_to sc res (limit_adjuster ∷ []) in
      let (l', winner) = raise_limit res 0 raised (l, none) in
      let guarded = is_guarded request l' in
      let l'' = if guarded then set_to request else l' in
      let stages =
        (limit_stage l (strategy_name s) facts ∷ [])
        ++ stages_of raised sc (if guarded then none else winner) in
      (l'', stages ++ (if guarded then limit_stage l'' "guard" [] ∷ [] else []))
