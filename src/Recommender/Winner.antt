-- ===== src/Recommender/Winner.antt =====
-- How the signals of the request side combine (`requestOf` of Recommender/Compute.antt, and the
-- contributions it is given).
use mathlib.Core.Path.{subst}
use k8s_sustain.Prelude.{
  ℕ, suc, ◌≡◌, refl, ap, sym, ◌⊎◌, inl, inr, Bool, true, false, ◌||◌, ◌&&◌, Option, none, some,
  List, [], ◌∷◌, ◌++◌, arith, Bool-cases, All, All-append, if◌then◌else◌,
}
use k8s_sustain.Prelude.Int.{pos}
use k8s_sustain.Units.{Quantities, Floats, FloatOrder, lt}
use k8s_sustain.Api.{ResourceKind}
use k8s_sustain.Recommender.Signals.{
  Signal, Role, base, adjuster, StageContext, Contributed, contributions_of, contributions_to,
  in_slot,
}
use k8s_sustain.Recommender.Compute.{is_base, is_unset, request_from, request_of}

module _ {F : Type 0} where
  -- The base contributions stand before the others.
  abbrev pub BasesFirst : List (Contributed F) → Type 0
  BasesFirst [] = Unit {0}
  BasesFirst (ct ∷ cts) =
      ((is_base ct.role ≡ true) ⊎ All (λ c. is_base c.role ≡ false) (ct ∷ cts)) × BasesFirst cts

  others_only :
      (ys : List (Contributed F))
      → All (λ c. c.role ≡ adjuster) ys
      → All (λ c. is_base c.role ≡ false) ys × BasesFirst ys
  others_only [] q = (tt, tt)
  others_only (y ∷ ys) q =
      let (none_base, rest) = others_only ys q.1 in
      let all : All (λ c. is_base c.role ≡ false) (y ∷ ys) = (ground arith, none_base) in
      (all, (inr all, rest))

  bases_append :
      (xs ys : List (Contributed F))
      → All (λ c. c.role ≡ base) xs
      → All (λ c. c.role ≡ adjuster) ys
      → BasesFirst (xs ++ ys)
  bases_append [] ys p q = (others_only ys q).1
  bases_append (x ∷ xs) ys p q = (inl (ground arith), bases_append xs ys p.1 q)

module _ {F : Type 0} ⦃fl : Floats F⦄ where
  -- The value does not lie below a contribution's.
  abbrev pub Covers : F → Contributed F → Type 0
  Covers v ct = lt v ct.value ≡ false

module _ {F : Type 0} ⦃fl : Floats F⦄ (ord : FloatOrder F) where
  open ord use {lt_irrefl, lt_trans}

  -- One value is another, or lies above it.
  abbrev Rises : F → F → Type 0
  Rises v r = (r ≡ v) ⊎ (lt v r ≡ true)

  not_above : (v r x : F) → Rises v r → lt v x ≡ false → lt r x ≡ false
  not_above v r x (inl e) k = rw e k
  not_above v r x (inr h) k = elim (Bool-cases (lt r x)) [
    | inl below ↦ cc (lt_trans v r x h below)
    | inr above ↦ above
  ]

  Rises-trans : (v w r : F) → lt v w ≡ true → Rises w r → Rises v r
  Rises-trans v w r h (inl e) = inr (rw e h)
  Rises-trans v w r h (inr k) = inr (lt_trans v w r h k)

  abbrev Ends : F → List (Contributed F) → F → Type 0
  Ends v cts r = Rises v r × All (Covers r) cts

  -- One turn of the loop, by its two tests.
  turn :
      (ct : Contributed F) (cts : List (Contributed F)) (v : F) (w : Option ℕ) (i : ℕ)
      (after : F × Option ℕ → F) (up first : Bool)
      → lt v ct.value ≡ up
      → (is_base ct.role && is_unset w) ≡ first
      → ((is_unset w ≡ false) ⊎ All (λ c. is_base c.role ≡ false) (ct ∷ cts))
      → Ends ct.value cts (after (ct.value, some i))
      → (((is_unset w ≡ false) ⊎ All (λ c. is_base c.role ≡ false) cts) → Ends v cts (after (v, w)))
      → Ends v (ct ∷ cts) (after (if up || first then (ct.value, some i) else (v, w)))
  turn ct cts v w i after true first e f h taken kept = (
    Rises-trans v ct.value _ e taken.0,
    (not_above ct.value _ ct.value taken.0 (lt_irrefl ct.value), taken.1),
  )
  turn ct cts v w i after false true e f h taken kept = absurd (ground arith)
  turn ct cts v w i after false false e f (inl set) taken kept =
      let rest = kept (inl set) in (rest.0, (not_above v _ ct.value rest.0 e, rest.1))
  turn ct cts v w i after false false e f (inr others) taken kept =
      let rest = kept (inr others.1) in (rest.0, (not_above v _ ct.value rest.0 e, rest.1))

  -- Once a base contribution is in, or where none is left, the value only rises.
  request_from-Ends :
      (i : ℕ) (cts : List (Contributed F)) (v : F) (w : Option ℕ)
      → ((is_unset w ≡ false) ⊎ All (λ c. is_base c.role ≡ false) cts)
      → Ends v cts (request_from i cts (v, w)).0
  unfolding request_from
  request_from-Ends i [] v w h = (inl refl, tt)
  request_from-Ends i (ct ∷ cts) v w h =
      turn ct cts v w i (λ acc. (request_from (suc i) cts acc).0) (lt v ct.value)
        (is_base ct.role && is_unset w) refl refl h
        (request_from-Ends (suc i) cts ct.value (some i) (inl refl))
        (request_from-Ends (suc i) cts v w)

  first_base :
      (ct : Contributed F) (cts : List (Contributed F))
      → is_base ct.role ≡ true
      → request_of (ct ∷ cts) ≡ request_from 1 cts (ct.value, some 0)
  unfolding request_of request_from
  first_base ct cts h =
      let test : (lt (fl.of_int (pos 0)) ct.value || (is_base ct.role && true)) ≡ true =
        ground arith in
      ap
        (λ (b : Bool).
          request_from 1 cts (if b then (ct.value, some 0) else (fl.of_int (pos 0), none)))
        test

  -- With the base contributions first, no contribution exceeds the value that is chosen: a tie
  -- goes to the first, and an adjuster only ever raises.
  pub request_of-Covers :
      (cts : List (Contributed F)) → BasesFirst cts → All (Covers (request_of cts).0) cts
  unfolding request_of request_from
  request_of-Covers [] b = tt
  request_of-Covers (ct ∷ cts) (inr others, b) =
      (request_from-Ends 0 (ct ∷ cts) (fl.of_int (pos 0)) none (inr others)).1
  request_of-Covers (ct ∷ cts) (inl first, b) =
      let (rises, covers) = request_from-Ends 1 cts ct.value (some 0) (inl refl) in
      subst (λ r. All (Covers r.0) (ct ∷ cts)) (sym (first_base ct cts first))
        (not_above ct.value _ ct.value rises (lt_irrefl ct.value), covers)

module _ {F Q : Type 0} ⦃fl : Floats F⦄ ⦃qu : Quantities Q⦄ (ord : FloatOrder F) where
  -- The signals that a request is computed from, usage before the OOM floor.
  abbrev pub request_signals : ResourceKind → StageContext F Q → List (Contributed F)
  request_signals res sc = contributions_to sc res (base ∷ adjuster ∷ [])

  contributions_of-role :
      (sc : StageContext F Q) (r : Role) (ss : List Signal)
      → All (λ c. c.role ≡ r) (contributions_of sc r ss)
  unfolding contributions_of
  contributions_of-role sc r [] = tt
  contributions_of-role sc r (s ∷ ss) = ground (arith, contributions_of-role sc r ss)

  -- The value a request is sized from is exceeded by nothing that a signal contributes.
  pub request_signals-Covers :
      (res : ResourceKind) (sc : StageContext F Q)
      → All (Covers (request_of (request_signals res sc)).0) (request_signals res sc)
  unfolding contributions_to
  request_signals-Covers res sc = request_of-Covers ord (request_signals res sc) (
      bases_append (contributions_of sc base (in_slot base res))
        (contributions_of sc adjuster (in_slot adjuster res) ++ [])
        (contributions_of-role sc base _)
        (All-append _ _ [] (contributions_of-role sc adjuster (in_slot adjuster res)) tt))
