-- ===== src/Shards/Limits.antt =====
-- The size of the shards that BuildShards makes (internal/prometheus/shard.go).
use k8s_sustain.Prelude.{
  Bool, suc, if◌then◌else◌, ◌≤◌, ◌≡◌, ◌⊎◌, inl, inr, refl, ap, ◌∙◌, true, false, List, [], ◌∷◌,
  ◌++◌, length, is_filled, All, All-append, if_both, length-append, ◌<◌, arith, map, Bool-cases,
}
use k8s_sustain.Prelude.Int.{ℤ, pos, ◌+ℤ◌, leb_ℤ, int64}
use k8s_sustain.Shards.{Shard, ShardGroupKey, max_shard_members}
use k8s_sustain.Shards.Building.{
  Member, Groups, Packing, flush, is_full, with_name, pack, pack_groups, sorted_by, sorted_in,
  is_later_member,
}

-- The samples that members load, summed as the code sums them.
abbrev pub total_from : ℤ → List Member → ℤ
total_from t [] = t
total_from t (m ∷ ms) = total_from (int64 (t +ℤ m.cost)) ms

-- What a member may be in a group.
abbrev pub IsKnown : Type 1
IsKnown = ShardGroupKey → Member → Type 0

-- Some names, no more than a shard holds, of members that are known in the shard's group, whose
-- samples are within the limit, or of a single one.
abbrev pub Fits : IsKnown → ℤ → Shard → Type 0
Fits known max_samples s =
    (is_filled s.names ≡ true)
    × (length s.names ≤ max_shard_members)
    × ((ms : List Member) × (map (λ m. m.name) ms ≡ s.names)
        × All (known (s.namespace, s.owner_kind)) ms
        × ((length ms ≡ 1) ⊎ (leb_ℤ (total_from (pos 0) ms) max_samples ≡ true)))

-- The names since the last shard could be one, or there are none.
abbrev Open : IsKnown → ShardGroupKey → ℤ → Packing → Type 0
Open known key max_samples p =
    (ms : List Member) × (map (λ m. m.name) ms ≡ p.names)
    × All (known key) ms
    × (total_from (pos 0) ms ≡ p.total)
    × (length p.names ≤ max_shard_members)
    × ((length ms ≤ 1) ⊎ (leb_ℤ p.total max_samples ≡ true))

total_from-append :
    (t : ℤ) (ms : List Member) (m : Member)
    → total_from t (ms ++ m ∷ []) ≡ int64 (total_from t ms +ℤ m.cost)
total_from-append t [] m = refl
total_from-append t (k ∷ ms) m = total_from-append (int64 (t +ℤ k.cost)) ms m

names-append :
    (ms : List Member) (m : Member)
    → map (λ k. k.name) (ms ++ m ∷ []) ≡ map (λ k. k.name) ms ++ m.name ∷ []
names-append [] m = refl
names-append (k ∷ ms) m = ap (◌∷◌ k.name) (names-append ms m)

length-names : (ms : List Member) → length (map (λ k. k.name) ms) ≡ length ms
length-names [] = refl
length-names (k ∷ ms) = ap suc (length-names ms)

length_filled : {A : Type 0} (xs : List A) → is_filled xs ≡ true → 1 ≤ length xs
length_filled [] h = ground (arith, h)
length_filled (x ∷ xs) h = omega arith

length_empty : {A : Type 0} (xs : List A) → is_filled xs ≡ false → length xs ≡ 0
length_empty [] h = refl
length_empty (x ∷ xs) h = ground (arith, h)

-- Sorting keeps what holds of each.
sorted_in-All :
    {A : Type 0} (is_after : A → A → Bool) (P : A → Type 0) (x : A) (xs : List A)
    → P x
    → All P xs
    → All P (sorted_in is_after x xs)
sorted_in-All is_after P x [] p _ = (p, tt)
sorted_in-All is_after P x (y ∷ ys) p (q, qs) =
    if_both (All P) (is_after x y) _ _ (q, sorted_in-All is_after P x ys p qs) (p, (q, qs))

pub sorted_by-All :
    {A : Type 0} (is_after : A → A → Bool) (P : A → Type 0) (xs : List A)
    → All P xs
    → All P (sorted_by is_after xs)
sorted_by-All is_after P [] _ = tt
sorted_by-All is_after P (x ∷ xs) (p, ps) =
    sorted_in-All is_after P x (sorted_by is_after xs) p (sorted_by-All is_after P xs ps)

room-short :
    (max_samples : ℤ) (p : Packing) (m : Member)
    → is_full max_samples p m ≡ false
    → (length p.names ≡ 0)
      ⊎ ((length p.names < max_shard_members)
          × (leb_ℤ (int64 (p.total +ℤ m.cost)) max_samples ≡ true))
room-short max_samples p m h = elim (Bool-cases (is_filled p.names)) [
  | inl e ↦ inr (ground (arith, h, e), ground (arith, h, e))
  | inr e ↦ inl (length_empty p.names e)
]

module _ (known : IsKnown) where
  start-Open :
      (key : ShardGroupKey) (max_samples : ℤ) (shards : List Shard)
      → Open known key max_samples (record { shards = shards; names = []; total = pos 0 })
  start-Open key max_samples shards = ([], refl, tt, refl, omega arith, inl (omega arith))

  flush-Fits :
      (max_samples : ℤ) (key : ShardGroupKey) (p : Packing)
      → Open known key max_samples p
      → All (Fits known max_samples) p.shards
      → All (Fits known max_samples) (flush key p).shards
  unfolding flush
  flush-Fits max_samples key p (ms, named, all, total, short, within) fits =
      elim (Bool-cases (is_filled p.names)) [
        | inl e ↦
            let one = length_filled p.names e in
            let many = ap length named in
            let size = length-names ms in
            let fit : (length ms ≡ 1) ⊎ (leb_ℤ (total_from (pos 0) ms) max_samples ≡ true) =
              elim within [
                | inl h ↦ inl (omega (arith, h, one, many, size))
                | inr h ↦ inr (ap (λ t. leb_ℤ t max_samples) total ∙ h)
              ] in
            rw e (
              All-append (Fits known max_samples) p.shards _ fits
                ((e, short, (ms, named, all, fit)), tt))
        | inr e ↦ rw e fits
      ]

  alone-Open :
      (key : ShardGroupKey) (max_samples : ℤ) (shards : List Shard) (m : Member)
      → known key m
      → Open known key max_samples
          (with_name (record { shards = shards; names = []; total = pos 0 }) m)
  alone-Open key max_samples shards m k =
      (m ∷ [], refl, (k, tt), refl, omega arith, inl (omega arith))

  joined-Open :
      (key : ShardGroupKey) (max_samples : ℤ) (p : Packing) (m : Member)
      → known key m
      → Open known key max_samples p
      → is_full max_samples p m ≡ false
      → Open known key max_samples (with_name p m)
  joined-Open key max_samples p m k (ms, named, all, total, short, within) h =
      let size = ap length named in
      let many = length-names ms in
      let more = length-append p.names (m.name ∷ []) in
      let longer = length-append ms (m ∷ []) in
      let room = room-short max_samples p m h in
      (
        ms ++ m ∷ [],
        names-append ms m ∙ ap (λ ns. ns ++ m.name ∷ []) named,
        All-append (known key) ms (m ∷ []) all (k, tt),
        total_from-append (pos 0) ms m ∙ ap (λ t. int64 (t +ℤ m.cost)) total,
        elim room [ inl e ↦ omega (arith, e, more) | inr (small, _) ↦ omega (arith, small, more) ],
        elim room [ inl e ↦ inl (omega (arith, e, size, many, longer)) | inr (_, fit) ↦ inr fit ],
      )

  with_name-Open :
      (max_samples : ℤ) (key : ShardGroupKey) (p : Packing) (m : Member)
      → known key m
      → Open known key max_samples p
      → Open known key max_samples
          (with_name (if is_full max_samples p m then flush key p else p) m)
  unfolding flush
  with_name-Open max_samples key p m k o = elim (Bool-cases (is_full max_samples p m)) [
    | inl e ↦
        let filled : is_filled p.names ≡ true = ground (arith, e) in
        rw (e, filled) (alone-Open key max_samples (flush key p).shards m k)
    | inr e ↦ rw e (joined-Open key max_samples p m k o e)
  ]

  pack-Fits :
      (max_samples : ℤ) (key : ShardGroupKey) (ms : List Member) (p : Packing)
      → All (known key) ms
      → Open known key max_samples p
      → All (Fits known max_samples) p.shards
      → All (Fits known max_samples) (flush key (pack max_samples key ms p)).shards
  unfolding pack
  pack-Fits max_samples key [] p ks o fits = flush-Fits max_samples key p o fits
  pack-Fits max_samples key (m ∷ ms) p (k, ks) o fits =
      pack-Fits max_samples key ms
        (with_name (if is_full max_samples p m then flush key p else p) m) ks
        (with_name-Open max_samples key p m k o)
        (if_both (λ q. All (Fits known max_samples) q.shards) (is_full max_samples p m)
          (flush key p) p (flush-Fits max_samples key p o fits) fits)

  pub pack_groups-Fits :
      (max_samples : ℤ) (groups : Groups) (shards : List Shard)
      → All (λ g. All (known g.0) g.1) groups
      → All (Fits known max_samples) shards
      → All (Fits known max_samples) (pack_groups max_samples groups shards)
  unfolding pack_groups
  pack_groups-Fits max_samples [] shards ks fits = fits
  pack_groups-Fits max_samples ((key, members) ∷ groups) shards (k, ks) fits =
      let start : Packing = record { shards = shards; names = []; total = pos 0 } in
      let members' = sorted_by is_later_member members in
      pack_groups-Fits max_samples groups (flush key (pack max_samples key members' start)).shards
        ks
        (pack-Fits max_samples key members' start
          (sorted_by-All is_later_member (known key) members k) (start-Open key max_samples shards)
          fits)
