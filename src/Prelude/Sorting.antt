-- ===== src/Prelude/Sorting.antt =====
-- Sorting as the standard library sorts, by a comparison that is an order.
use Prim.Native.Nat.{suc, Ordering}
use mathlib.Core.Path.{◌≡◌, refl, ap, ◌∙◌}
use mathlib.Core.List.{List, [], ◌∷◌}
use native.Mathlib.Omega.{arith}
use k8s_sustain.Prelude.Lists.{length}

unfoldable pub insert_stable {ℓ} : {A : Type ℓ} → (A → A → Ordering) → A → List A → List A
insert_stable cmp a [] = a ∷ []
insert_stable cmp a (b ∷ bs) =
    let rest = insert_stable cmp a bs in elim (cmp b a) [ Ordering.lt ↦ b ∷ rest | _ ↦ a ∷ b ∷ bs ]

unfoldable pub sort_stable {ℓ} : {A : Type ℓ} → (A → A → Ordering) → List A → List A
unfolding insert_stable
sort_stable cmp [] = []
sort_stable cmp (a ∷ bs) = insert_stable cmp a (sort_stable cmp bs)

length-insert_stable :
    {A : Type 0} (cmp : A → A → Ordering) (a : A) (bs : List A)
    → length (insert_stable cmp a bs) ≡ suc (length bs)
unfolding insert_stable
length-insert_stable cmp a [] = refl
length-insert_stable cmp a (b ∷ bs) = ground (arith, length-insert_stable cmp a bs)

pub length-sort_stable :
    {A : Type 0} (cmp : A → A → Ordering) (bs : List A) → length (sort_stable cmp bs) ≡ length bs
unfolding sort_stable
length-sort_stable cmp [] = refl
length-sort_stable cmp (b ∷ bs) =
    length-insert_stable cmp b (sort_stable cmp bs) ∙ ap suc (length-sort_stable cmp bs)
