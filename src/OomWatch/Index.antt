-- ===== src/OomWatch/Index.antt =====
-- The index by workload of internal/oomwatch/cache.go: which containers it knows after an
-- addition and a removal.
use k8s_sustain.Prelude.{
  ◌≡◌, refl, ap, ◌∙◌, Bool, true, false, Option, none, some, List, [], ◌∷◌, String, String-discrete,
  ite-pair_discrete, lookup, insert, delete, is_some, is_filled, ite, arith, lookup-insert,
  lookup-delete,
}
use k8s_sustain.OomWatch.{Identity, identity_discrete, Key, key_discrete}
use k8s_sustain.OomWatch.Cache.{Index, containers_of, add_index, remove_index}

-- Whether the index knows an identity's container.
unfoldable pub indexed : Index → Key → Bool
indexed index (id, container) =
    is_some (lookup String-discrete container (containers_of (lookup identity_discrete id index)))

pub add_index-indexed :
    (k q : Key) (index : Index)
    → indexed (add_index k index) q ≡ ite (key_discrete q k) true (indexed index q)
unfolding add_index indexed
add_index-indexed (id, c) (id', c') index =
    let s = containers_of (lookup identity_discrete id index) in
    ground (
      arith,
      ite-pair_discrete identity_discrete String-discrete id' id c' c true
          (indexed index (id', c')),
      lookup-insert identity_discrete id id' (insert String-discrete c tt s) index,
      lookup-insert String-discrete c c' tt s,
    )

empty-lookup : (c : String) → lookup {B = Unit {0}} String-discrete c [] ≡ none
unfolding lookup
empty-lookup c = refl

unfilled-lookup :
    (c : String) (s : List (String × Unit {0}))
    → is_filled s ≡ false
    → lookup String-discrete c s ≡ none
unfolding lookup
unfilled-lookup c [] h = refl
unfilled-lookup c (x ∷ s) h = ground arith

remove_known :
    (o : Option (List (String × Unit {0}))) (id id' : Identity) (c c' : String) (index : Index)
    → lookup identity_discrete id index ≡ o
    → indexed (remove_index (id, c) index) (id', c')
      ≡ ite (key_discrete (id', c') (id, c)) false (indexed index (id', c'))
unfolding remove_index indexed
remove_known none id id' c c' index h =
    let same : id' ≡ id → lookup identity_discrete id' index ≡ none =
      λ e. ap (λ x. lookup identity_discrete x index) e ∙ h in
    ground (
      arith,
      h,
      same,
      empty-lookup c',
      ite-pair_discrete identity_discrete String-discrete id' id c' c false
          (indexed index (id', c')),
    )
remove_known (some s) id id' c c' index h =
    let same : id' ≡ id → lookup identity_discrete id' index ≡ some s =
      λ e. ap (λ x. lookup identity_discrete x index) e ∙ h in
    ground (
      arith,
      h,
      same,
      empty-lookup c',
      ite-pair_discrete identity_discrete String-discrete id' id c' c false
          (indexed index (id', c')),
      lookup-insert identity_discrete id id' (delete String-discrete c s) index,
      lookup-delete identity_discrete id id' index,
      lookup-delete String-discrete c c' s,
      unfilled-lookup c' (delete String-discrete c s),
    )

pub remove_index-indexed :
    (k q : Key) (index : Index)
    → indexed (remove_index k index) q ≡ ite (key_discrete q k) false (indexed index q)
unfolding remove_index indexed
remove_index-indexed (id, c) (id', c') index =
    remove_known (lookup identity_discrete id index) id id' c c' index refl
