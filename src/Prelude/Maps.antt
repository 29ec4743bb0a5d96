-- ===== src/Prelude/Maps.antt =====
-- A Go map as an association list: `lookup` is the library's, `insert` writes over an entry in
-- place, and `delete` drops the key. The order of the list stands for an order of iteration.
use Prim.Native.Nat.{◌+◌, ◌≤◌, ◌<◌}
use mathlib.Core.Path.{◌≡◌, refl, sym, subst, ◌∙◌}
use mathlib.Core.Logic.{◌≢◌, ite, if_pos, if_neg}
use mathlib.Core.List.{List, [], ◌∷◌}
use mathlib.Core.Option.{none, some}
use native.Mathlib.Omega.{arith}
use k8s_sustain.Prelude.Lists.{length}
unfoldable pub use mathlib.Core.List.{lookup}

module _ {ℓ} {K V : Type ℓ} (dec : Discrete K) where
  unfoldable pub insert : K → V → List (K × V) → List (K × V)
  insert k v [] = (k, v) ∷ []
  insert k v ((j, w) ∷ m) = ite (dec k j) ((k, v) ∷ m) ((j, w) ∷ insert k v m)

  unfoldable pub delete : K → List (K × V) → List (K × V)
  delete k [] = []
  delete k ((j, w) ∷ m) = ite (dec k j) (delete k m) ((j, w) ∷ delete k m)

  pub lookup-insert :
      (k q : K) (v : V) (m : List (K × V))
      → lookup dec q (insert k v m) ≡ ite (dec q k) (some v) (lookup dec q m)
  unfolding lookup insert
  lookup-insert k q v [] = refl
  lookup-insert k q v ((j, w) ∷ m) = ground (arith, lookup-insert k q v m)

  pub lookup-delete :
      (k q : K) (m : List (K × V)) → lookup dec q (delete k m) ≡ ite (dec q k) none (lookup dec q m)
  unfolding lookup delete
  lookup-delete k q [] = ground arith
  lookup-delete k q ((j, w) ∷ m) = ground (arith, lookup-delete k q m)

  pub length-insert_absent :
      (k : K) (v : V) (m : List (K × V))
      → lookup dec k m ≡ none
      → length (insert k v m) ≡ length m + 1
  unfolding lookup insert
  length-insert_absent k v [] h = refl
  length-insert_absent k v ((j, w) ∷ m) h = ground (arith, length-insert_absent k v m)

  pub length-insert_present :
      (k : K) (v w : V) (m : List (K × V))
      → lookup dec k m ≡ some w
      → length (insert k v m) ≡ length m
  unfolding lookup insert
  length-insert_present k v w [] h = ground arith
  length-insert_present k v w ((j, x) ∷ m) h = ground (arith, length-insert_present k v w m)

  pub length-insert-le : (k : K) (v : V) (m : List (K × V)) → length (insert k v m) ≤ length m + 1
  unfolding insert
  length-insert-le k v [] = omega arith
  length-insert-le k v ((j, w) ∷ m) = ground (arith, length-insert-le k v m)

  pub length-delete-le : (k : K) (m : List (K × V)) → length (delete k m) ≤ length m
  unfolding delete
  length-delete-le k [] = omega arith
  length-delete-le k ((j, w) ∷ m) = ground (arith, length-delete-le k m)

  pub length-delete-lt :
      (k : K) (w : V) (m : List (K × V)) → lookup dec k m ≡ some w → length (delete k m) < length m
  unfolding lookup delete
  length-delete-lt k w [] h = ground arith
  length-delete-lt k w ((j, x) ∷ m) h = ground (arith, length-delete-lt k w m, length-delete-le k m)

  pub lookup-insert_self : (k : K) (v : V) (m : List (K × V)) → lookup dec k (insert k v m) ≡ some v
  lookup-insert_self k v m = rw (lookup-insert k k v m) (if_pos (dec k k) refl _ _)

  pub lookup-insert_ne :
      (k q : K) (v : V) (m : List (K × V)) → q ≢ k → lookup dec q (insert k v m) ≡ lookup dec q m
  lookup-insert_ne k q v m h = rw (lookup-insert k q v m) (if_neg (dec q k) h _ _)

  pub lookup-delete_self : (k : K) (m : List (K × V)) → lookup dec k (delete k m) ≡ none
  lookup-delete_self k m = rw (lookup-delete k k m) (if_pos (dec k k) refl _ _)

  pub lookup-delete_ne :
      (k q : K) (m : List (K × V)) → q ≢ k → lookup dec q (delete k m) ≡ lookup dec q m
  lookup-delete_ne k q m h = rw (lookup-delete k q m) (if_neg (dec q k) h _ _)

-- What holds of both branches holds of the conditional.
pub ite_both {ℓ κ} :
    {P : Type ℓ} {A : Type ℓ} (Q : A → Type κ) (d : Dec P) (x y : A)
    → (P → Q x)
    → (¬ P → Q y)
    → Q (ite d x y)
ite_both Q (yes p) x y f g = f p
ite_both Q (no p) x y f g = g p

-- As in a Go map, no key stands twice.
module _ {ℓ} {K V : Type ℓ} (dec : Discrete K) where
  unfoldable pub Distinct : List (K × V) → Type ℓ
  unfolding lookup
  Distinct [] = Unit
  Distinct ((k, v) ∷ m) = (lookup dec k m ≡ none) × Distinct m

  pub insert-Distinct :
      (k : K) (v : V) (m : List (K × V)) → Distinct m → Distinct (insert dec k v m)
  unfolding Distinct insert lookup
  insert-Distinct k v [] _ = (refl, tt)
  insert-Distinct k v ((j, w) ∷ m) (absent, rest) =
      ite_both Distinct (dec k j) ((k, v) ∷ m) ((j, w) ∷ insert dec k v m)
        (λ p. (subst (λ x. lookup dec x m ≡ none) (sym p) absent, rest))
        (λ p. (lookup-insert_ne dec k j v m (λ e. p (sym e)) ∙ absent, insert-Distinct k v m rest))

  pub delete-Distinct : (k : K) (m : List (K × V)) → Distinct m → Distinct (delete dec k m)
  unfolding Distinct delete lookup
  delete-Distinct k [] _ = tt
  delete-Distinct k ((j, w) ∷ m) (absent, rest) =
      ite_both Distinct (dec k j) (delete dec k m) ((j, w) ∷ delete dec k m)
        (λ p. delete-Distinct k m rest)
        (λ p. (lookup-delete_ne dec k j m (λ e. p (sym e)) ∙ absent, delete-Distinct k m rest))
