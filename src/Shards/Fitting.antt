-- ===== src/Shards/Fitting.antt =====
-- The size of the shards that BuildShards makes of its candidates (internal/prometheus/shard.go).
use mathlib.Core.List.{Mem}
use mathlib.Core.Path.{subst}
use mathlib.Core.Logic.{ite}
use k8s_sustain.Prelude.{
  ◌≡◌, refl, sym, false, some, List, [], ◌∷◌, lookup, insert, All, All-append, All-own, ite_both,
  Bool-cases, inl, inr,
}
use k8s_sustain.Prelude.Int.{ℤ}
use k8s_sustain.Shards.{ShardCandidate, ShardGroupKey}
use k8s_sustain.Shards.Building.{
  Member, Groups, group_discrete, is_dropped, group_of, member_of, or_no_members, with_member,
  grouped, at_least_one, build_shards, sorted_by, is_later_group,
}
use k8s_sustain.Shards.Limits.{IsKnown, Fits, sorted_by-All, pack_groups-Fits}

module _ (known : IsKnown) where
  abbrev AllKnown : Groups → Type 0
  AllKnown = All (λ g. All (known g.0) g.1)

  looked_up-All :
      (key : ShardGroupKey) (groups : Groups)
      → AllKnown groups
      → All (known key) (or_no_members (lookup group_discrete key groups))
  unfolding lookup
  looked_up-All key [] _ = tt
  looked_up-All key ((k, ms) ∷ groups) (h, hs) =
      elim (group_discrete key k)
        as (λ d.
          All (known key) (or_no_members (ite d (some ms) (lookup group_discrete key groups)))) [
            | yes e ↦ subst (λ j. All (known j) ms) (sym e) h
            | no n ↦ looked_up-All key groups hs
          ]

  insert-AllKnown :
      (key : ShardGroupKey) (ms : List Member) (groups : Groups)
      → All (known key) ms
      → AllKnown groups
      → AllKnown (insert group_discrete key ms groups)
  unfolding insert
  insert-AllKnown key ms [] p _ = (p, tt)
  insert-AllKnown key ms ((k, ns) ∷ groups) p (h, hs) =
      ite_both AllKnown (group_discrete key k) ((key, ms) ∷ groups)
        ((k, ns) ∷ insert group_discrete key ms groups) (λ _. (p, hs))
        (λ _. (h, insert-AllKnown key ms groups p hs))

  with_member-AllKnown :
      (key : ShardGroupKey) (m : Member) (groups : Groups)
      → known key m
      → AllKnown groups
      → AllKnown (with_member key m groups)
  with_member-AllKnown key m groups k h =
      insert-AllKnown key _ groups
        (All-append (known key) (or_no_members (lookup group_discrete key groups)) (m ∷ [])
          (looked_up-All key groups h) (k, tt))
        h

-- A member of the name and the cost that a candidate of the group has, one that is not dropped.
abbrev pub IsCandidate : List ShardCandidate → ℤ → IsKnown
IsCandidate cands samples key m =
    (c : ShardCandidate) × Mem c cands
    × (is_dropped c ≡ false)
    × (group_of c ≡ key)
    × (m ≡ member_of samples c)

grouped-AllKnown :
    (cands rest : List ShardCandidate) (samples : ℤ) (groups : Groups)
    (dropped : List ShardCandidate)
    → All (λ c. Mem c cands) rest
    → AllKnown (IsCandidate cands samples) groups
    → AllKnown (IsCandidate cands samples) (grouped samples rest groups dropped).0
unfolding grouped
grouped-AllKnown cands [] samples groups dropped _ h = h
grouped-AllKnown cands (c ∷ rest) samples groups dropped (m, ms) h =
    elim (Bool-cases (is_dropped c)) [
      | inl e ↦ rw (e, grouped) (grouped-AllKnown cands rest samples groups _ ms h)
      | inr e ↦
          rw (e, grouped)
            (grouped-AllKnown cands rest samples _ dropped ms (
              with_member-AllKnown (IsCandidate cands samples) (group_of c) (member_of samples c)
                groups (c, m, e, refl, refl) h))
    ]

-- Each shard has at least one name and at most a thousand. They are the names of candidates of the
-- shard's namespace and kind that are not dropped, whose samples, the series of each candidate
-- times the samples of a series, are within the limit as the code sums them, unless it is one name.
pub build_shards-Fits :
    (cands : List ShardCandidate) (samples max_samples : ℤ)
    → All
        (Fits (IsCandidate cands (at_least_one samples)) max_samples)
        (build_shards cands samples max_samples).0
unfolding build_shards
build_shards-Fits cands samples max_samples =
    let known = IsCandidate cands (at_least_one samples) in
    let groups = (grouped (at_least_one samples) cands [] []).0 in
    pack_groups-Fits known max_samples (sorted_by is_later_group groups) []
      (sorted_by-All is_later_group (λ g. All (known g.0) g.1) groups
        (grouped-AllKnown cands cands (at_least_one samples) [] [] (All-own cands) tt))
      tt
