-- ===== src/Prelude/Keys.antt =====
-- Decidable equality of the keys of a map: texts, and the structs made of them as pairs.
use Prim.Native.String.{String}
use mathlib.Core.Path.{◌≡◌, refl}
use mathlib.Core.Bool.{Bool, true, false}
use mathlib.Core.Logic.{◌↔◌, ite}
use text.Mathlib.Text.{◌==◌ as str_eq}
use text.Mathlib.TextEquality.{eq_iff}
use native.Mathlib.Omega.{arith}

dec_of_test : {P : Type 0} (b : Bool) → ((b ≡ true) ↔ P) → Dec P
dec_of_test true e = yes (e.0 refl)
dec_of_test false e = no (λ p. cc (e.1 p))

unfoldable pub String-discrete : Discrete String
unfolding dec_of_test
String-discrete s t = dec_of_test (str_eq s t) (eq_iff s t)

unfoldable pub pair_discrete {ℓ κ} :
    {A : Type ℓ} {B : Type κ} → Discrete A → Discrete B → Discrete (A × B)
pair_discrete dec dec' (a, b) (c, d) = elim (dec a c) [
  | yes p ↦ elim (dec' b d) [ yes q ↦ yes (λ i. (p i, q i)) | no q ↦ no (λ e. q (λ i. (e i).1)) ]
  | no p ↦ no (λ e. p (λ i. (e i).0))
]

-- A decision on a pair is the decision on its parts.
pub ite-pair_discrete {ℓ κ μ} :
    {A : Type ℓ} {B : Type κ} {C : Type μ} (dec : Discrete A) (dec' : Discrete B) (a c : A)
    (b d : B) (x y : C)
    → ite (pair_discrete dec dec' (a, b) (c, d)) x y ≡ ite (dec a c) (ite (dec' b d) x y) y
unfolding pair_discrete
ite-pair_discrete dec dec' a c b d x y = ground arith

-- The Boolean test of a decidable equality.
abbrev pub is_same {ℓ} : {A : Type ℓ} → Discrete A → A → A → Bool
is_same dec a b = ite (dec a b) true false

pub is_same_iff {ℓ} : {A : Type ℓ} (dec : Discrete A) (a b : A) → (is_same dec a b ≡ true) ↔ (a ≡ b)
is_same_iff dec a b = elim (dec a b) as (λ d. (ite d true false ≡ true) ↔ (a ≡ b)) [
  | yes p ↦ (λ _. p, λ _. refl)
  | no n ↦ (λ e. cc, λ e. absurd (n e))
]
