-- ===== src/Prelude/Lists.antt =====
-- Lists measured by native numbers, under the library's names, and predicates on their members.
use Prim.Native.Nat.{ℕ, suc, ◌+◌}
use mathlib.Core.Path.{◌≡◌, refl}
use mathlib.Core.Bool.{Bool, true, false, ◌||◌}
use mathlib.Core.List.{List, [], ◌∷◌, ◌++◌}
use mathlib.Core.List.{Mem, mem-cons_self, mem-cons_of_mem}
use mathlib.Core.Option.{Option, none, some}
use native.Mathlib.Omega.{arith}

module _ {ℓ} {A : Type ℓ} where
  abbrev pub length : List A → ℕ
  length [] = 0
  length (x ∷ xs) = suc (length xs)

  pub length-append : (xs ys : List A) → length (xs ++ ys) ≡ length xs + length ys
  length-append [] ys = omega arith
  length-append (x ∷ xs) ys = omega (arith, length-append xs ys)

  abbrev pub any : (A → Bool) → List A → Bool
  any p [] = false
  any p (x ∷ xs) = p x || any p xs

  abbrev pub All {κ} : (A → Type κ) → List A → Type κ
  All P [] = Unit
  All P (x ∷ xs) = P x × All P xs

  pub All-append {κ} : (P : A → Type κ) (xs ys : List A) → All P xs → All P ys → All P (xs ++ ys)
  All-append P [] ys _ q = q
  All-append P (x ∷ xs) ys (p, ps) q = (p, All-append P xs ys ps q)

  pub All-map {κ μ} :
      {P : A → Type κ} {R : A → Type μ} (f : (x : A) → P x → R x) (xs : List A)
      → All P xs
      → All R xs
  All-map f [] _ = tt
  All-map f (x ∷ xs) (p, ps) = (f x p, All-map f xs ps)

  pub All-own : (xs : List A) → All (λ x. Mem x xs) xs
  All-own [] = tt
  All-own (x ∷ xs) = (mem-cons_self, All-map (λ y m. mem-cons_of_mem x m) xs (All-own xs))

  abbrev pub is_some : Option A → Bool
  is_some none = false
  is_some (some a) = true

  abbrev pub is_filled : List A → Bool
  is_filled [] = false
  is_filled (x ∷ xs) = true

  pub some_of_is_some : (o : Option A) → is_some o ≡ true → (a : A) × (o ≡ some a)
  some_of_is_some none h = ground arith
  some_of_is_some (some a) h = (a, refl)
