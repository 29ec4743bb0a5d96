-- ===== src/WlrCache/Equivalence.antt =====
-- The comparison of statuses (internal/wlrcache/wlrcache.go) is reflexive.
use k8s_sustain.Prelude.{
  ◌≡◌, refl, Bool, true, Option, none, some, List, [], ◌∷◌, String, String-discrete, is_same_iff,
  lookup, Distinct, All, arith, if_pos,
}
use k8s_sustain.Units.{Quantities, QuantityOrder}
use k8s_sustain.Api.{ContainerRecommendation}
use k8s_sustain.WlrCache.{
  Status, quantity_equal, recommendation_matches, observed_matches, all_match, status_equivalent,
  Observed,
}

-- An entry of a map is found under its key.
module _ {V : Type 0} where
  abbrev Found : List (String × V) → List (String × V) → Type 0
  Found b = All (λ e. lookup String-discrete e.0 b ≡ some e.1)

  Found-cons :
      (k : String) (v : V) (a b : List (String × V))
      → lookup String-discrete k a ≡ none
      → Found b a
      → Found ((k, v) ∷ b) a
  unfolding lookup
  Found-cons k v [] b h f = tt
  Found-cons k v ((j, w) ∷ a) b h (e, f) = (ground arith, Found-cons k v a b (ground arith) f)

  Distinct-Found : (m : List (String × V)) → Distinct String-discrete m → Found m m
  unfolding Distinct lookup
  Distinct-Found [] d = tt
  Distinct-Found ((k, v) ∷ m) (h, d) =
      (if_pos (String-discrete k k) refl _ _, Found-cons k v m m h (Distinct-Found m d))

  all_match-Found :
      (f : V → V → Bool) (a b : List (String × V))
      → ((v : V) → f v v ≡ true)
      → Found b a
      → all_match f a b ≡ true
  unfolding all_match
  all_match-Found f [] b r h = refl
  all_match-Found f ((k, v) ∷ a) b r (e, h) = ground (arith, e, r v, all_match-Found f a b r h)

module _ {Q : Type 0} ⦃qu : Quantities Q⦄ (ord : QuantityOrder Q) where
  open ord use {amount, cmp-amount}

  quantity_equal_refl : (a : Option Q) → quantity_equal a a ≡ true
  unfolding quantity_equal
  quantity_equal_refl none = refl
  quantity_equal_refl (some q) = ground (arith, cmp-amount q q)

  recommendation_matches_refl : (r : ContainerRecommendation Q) → recommendation_matches r r ≡ true
  unfolding recommendation_matches
  recommendation_matches_refl r = ground (
    arith,
    quantity_equal_refl r.cpu_request,
    quantity_equal_refl r.memory_request,
    quantity_equal_refl r.cpu_limit,
    quantity_equal_refl r.memory_limit,
  )

  observed_matches_refl : (r : Observed Q) → observed_matches r r ≡ true
  unfolding observed_matches
  observed_matches_refl r = ground (
    arith,
    quantity_equal_refl r.cpu_request,
    quantity_equal_refl r.memory_request,
    quantity_equal_refl r.cpu_limit,
    quantity_equal_refl r.memory_limit,
  )

  -- A status is equivalent to itself, as its maps hold no key twice.
  pub status_equivalent_refl :
      {F : Type 0} (s : Status F Q)
      → Distinct String-discrete s.containers
      → Distinct String-discrete s.observed_resources
      → status_equivalent s s ≡ true
  unfolding status_equivalent
  status_equivalent_refl s d e = ground (
    arith,
    is_same_iff String-discrete s.computed_by s.computed_by,
    all_match-Found recommendation_matches s.containers s.containers recommendation_matches_refl
        (Distinct-Found s.containers d),
    all_match-Found observed_matches s.observed_resources s.observed_resources observed_matches_refl
        (Distinct-Found s.observed_resources e),
  )
