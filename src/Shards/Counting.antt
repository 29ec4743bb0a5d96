-- ===== src/Shards/Counting.antt =====
-- How often candidates, groups and shards name an identity (internal/prometheus/shard.go).
use k8s_sustain.Prelude.{
  ℕ, ◌+◌, ◌≡◌, refl, sym, ◌∙◌, Bool, List, [], ◌∷◌, ◌++◌, String, map, arith, is_same,
  if◌then◌else◌,
}
use k8s_sustain.OomWatch.{Identity, identity_discrete}
use k8s_sustain.Shards.{ShardCandidate, Shard, ShardGroupKey, identities}
use k8s_sustain.Shards.Building.{
  Member, Groups, sorted_in, sorted_by, is_later_member, is_later_group, is_dropped,
}

-- How often an identity is selected by one list of members, by groups, and by shards.
abbrev occurrences : Identity → List Identity → ℕ
occurrences id [] = 0
occurrences id (x ∷ xs) = (if is_same identity_discrete id x then 1 else 0) + occurrences id xs

abbrev pub named : ShardGroupKey → String → Identity
named (namespace, kind) name = (namespace, (kind, name))

abbrev pub in_names : Identity → ShardGroupKey → List String → ℕ
in_names id key [] = 0
in_names id key (n ∷ ns) =
    (if is_same identity_discrete id (named key n) then 1 else 0) + in_names id key ns

abbrev pub in_members : Identity → ShardGroupKey → List Member → ℕ
in_members id key [] = 0
in_members id key (m ∷ ms) =
    (if is_same identity_discrete id (named key m.name) then 1 else 0) + in_members id key ms

abbrev pub in_groups : Identity → Groups → ℕ
in_groups id [] = 0
in_groups id ((key, ms) ∷ groups) = in_members id key ms + in_groups id groups

abbrev pub in_shards : Identity → List Shard → ℕ
in_shards id [] = 0
in_shards id (s ∷ shards) = occurrences id (identities s) + in_shards id shards

-- How often it is asked for: by the candidates that are not dropped.
abbrev pub in_candidates : Identity → List ShardCandidate → ℕ
in_candidates id [] = 0
in_candidates id (c ∷ cands) =
    (if is_dropped c then 0 else if is_same identity_discrete id c.identity then 1 else 0)
    + in_candidates id cands

pub in_names-append :
    (id : Identity) (key : ShardGroupKey) (ns : List String) (n : String)
    → in_names id key (ns ++ n ∷ []) ≡ in_names id key ns + in_names id key (n ∷ [])
in_names-append id key [] n = omega arith
in_names-append id key (k ∷ ns) n = omega (arith, in_names-append id key ns n)

pub in_members-append :
    (id : Identity) (key : ShardGroupKey) (ms : List Member) (m : Member)
    → in_members id key (ms ++ m ∷ []) ≡ in_members id key ms + in_members id key (m ∷ [])
in_members-append id key [] m = omega arith
in_members-append id key (k ∷ ms) m = omega (arith, in_members-append id key ms m)

pub in_shards-append :
    (id : Identity) (shards : List Shard) (s : Shard)
    → in_shards id (shards ++ s ∷ []) ≡ in_shards id shards + occurrences id (identities s)
in_shards-append id [] s = omega arith
in_shards-append id (k ∷ shards) s = omega (arith, in_shards-append id shards s)

pub occurrences-identities :
    (id : Identity) (namespace kind : String) (ns : List String)
    → occurrences id (map (λ n. (namespace, (kind, n))) ns) ≡ in_names id (namespace, kind) ns
occurrences-identities id namespace kind [] = refl
occurrences-identities id namespace kind (n ∷ ns) =
    omega (arith, occurrences-identities id namespace kind ns)

-- Sorting keeps what a list adds up to.
abbrev sum_of {ℓ} : {A : Type ℓ} → (A → ℕ) → List A → ℕ
sum_of f [] = 0
sum_of f (x ∷ xs) = f x + sum_of f xs

module _ {ℓ} {A : Type ℓ} (f : A → ℕ) (is_after : A → A → Bool) where
  sum_of-sorted_in : (x : A) (xs : List A) → sum_of f (sorted_in is_after x xs) ≡ f x + sum_of f xs
  sum_of-sorted_in x [] = refl
  sum_of-sorted_in x (y ∷ ys) = ground (arith, sum_of-sorted_in x ys)

  sum_of-sorted_by : (xs : List A) → sum_of f (sorted_by is_after xs) ≡ sum_of f xs
  sum_of-sorted_by [] = refl
  sum_of-sorted_by (x ∷ xs) =
      omega (arith, sum_of-sorted_in x (sorted_by is_after xs), sum_of-sorted_by xs)

in_members-sum :
    (id : Identity) (key : ShardGroupKey) (ms : List Member)
    → in_members id key ms
      ≡ sum_of (λ m. if is_same identity_discrete id (named key m.name) then 1 else 0) ms
in_members-sum id key [] = refl
in_members-sum id key (m ∷ ms) = omega (arith, in_members-sum id key ms)

in_groups-sum :
    (id : Identity) (groups : Groups)
    → in_groups id groups ≡ sum_of (λ g. in_members id g.0 g.1) groups
in_groups-sum id [] = refl
in_groups-sum id ((key, ms) ∷ groups) = omega (arith, in_groups-sum id groups)

pub in_members-sorted :
    (id : Identity) (key : ShardGroupKey) (ms : List Member)
    → in_members id key (sorted_by is_later_member ms) ≡ in_members id key ms
in_members-sorted id key ms =
    in_members-sum id key (sorted_by is_later_member ms)
    ∙ sum_of-sorted_by _ is_later_member ms
    ∙ sym (in_members-sum id key ms)

pub in_groups-sorted :
    (id : Identity) (groups : Groups)
    → in_groups id (sorted_by is_later_group groups) ≡ in_groups id groups
in_groups-sorted id groups =
    in_groups-sum id (sorted_by is_later_group groups)
    ∙ sum_of-sorted_by _ is_later_group groups
    ∙ sym (in_groups-sum id groups)
