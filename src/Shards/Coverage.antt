-- ===== src/Shards/Coverage.antt =====
-- Which identities the shards of BuildShards select (internal/prometheus/shard.go).
use k8s_sustain.Prelude.{
  ℕ, ◌+◌, ◌≡◌, refl, ap, Bool, true, false, List, [], ◌∷◌, ◌++◌, String, arith, lookup, insert,
  is_same, is_same_iff, is_filled, if◌then◌else◌, Bool-cases, inl, inr, if_both,
}
use k8s_sustain.Prelude.Int.{ℤ, pos}
use k8s_sustain.OomWatch.{Identity, identity_discrete}
use k8s_sustain.Shards.{ShardCandidate, Shard, ShardGroupKey}
use k8s_sustain.Shards.Building.{
  Member, Groups, Packing, flush, is_full, with_name, pack, pack_groups, build_shards, grouped,
  sorted_by, is_later_member, is_later_group, at_least_one, group_discrete, group_of, member_of,
  is_dropped, with_member, or_no_members,
}
use k8s_sustain.Shards.Counting.{
  in_names, in_members, in_groups, in_shards, in_candidates, in_names-append, in_members-append,
  in_shards-append, occurrences-identities, in_members-sorted, in_groups-sorted,
}

-- What a packing has selected and is about to.
abbrev in_packing : Identity → ShardGroupKey → Packing → ℕ
in_packing id key p = in_shards id p.shards + in_names id key p.names

flush-in_shards :
    (id : Identity) (key : ShardGroupKey) (p : Packing)
    → in_packing id key (flush key p) ≡ in_packing id key p
unfolding flush
flush-in_shards id (namespace, kind) p = elim (Bool-cases (is_filled p.names)) [
  | inl e ↦
      let s : Shard = record { namespace = namespace; owner_kind = kind; names = p.names } in
      rw e (
        omega
          (arith, in_shards-append id p.shards s, occurrences-identities id namespace kind p.names))
  | inr e ↦ rw e refl
]

empty_of : (xs : List String) → is_filled xs ≡ false → xs ≡ []
empty_of [] h = refl
empty_of (x ∷ xs) h = ground (arith, h)

flush-names : (key : ShardGroupKey) (p : Packing) → (flush key p).names ≡ []
unfolding flush
flush-names key p = elim (Bool-cases (is_filled p.names)) [
  | inl e ↦ rw e refl
  | inr e ↦ rw e (empty_of p.names e)
]

pack-in_packing :
    (max_samples : ℤ) (id : Identity) (key : ShardGroupKey) (ms : List Member) (p : Packing)
    → in_packing id key (pack max_samples key ms p) ≡ in_packing id key p + in_members id key ms
unfolding pack
pack-in_packing max_samples id key [] p = omega arith
pack-in_packing max_samples id key (m ∷ ms) p =
    let q = if is_full max_samples p m then flush key p else p in
    let flushed : in_packing id key q ≡ in_packing id key p =
      if_both (λ r. in_packing id key r ≡ in_packing id key p) (is_full max_samples p m)
        (flush key p) p (flush-in_shards id key p) refl in
    omega (
      arith,
      flushed,
      in_names-append id key q.names m.name,
      pack-in_packing max_samples id key ms (with_name q m),
    )

flushed-in_shards :
    (id : Identity) (key : ShardGroupKey) (p : Packing)
    → in_shards id (flush key p).shards ≡ in_packing id key p
flushed-in_shards id key p =
    omega (arith, flush-in_shards id key p, ap (in_names id key) (flush-names key p))

pack_groups-in_shards :
    (max_samples : ℤ) (id : Identity) (groups : Groups) (shards : List Shard)
    → in_shards id (pack_groups max_samples groups shards)
      ≡ in_shards id shards + in_groups id groups
unfolding pack_groups
pack_groups-in_shards max_samples id [] shards = omega arith
pack_groups-in_shards max_samples id ((key, members) ∷ groups) shards =
    let start : Packing = record { shards = shards; names = []; total = pos 0 } in
    let members' = sorted_by is_later_member members in
    let packed = pack max_samples key members' start in
    omega (
      arith,
      pack-in_packing max_samples id key members' start,
      flushed-in_shards id key packed,
      in_members-sorted id key members,
      pack_groups-in_shards max_samples id groups (flush key packed).shards,
    )

same_group :
    (id : Identity) (key key' : ShardGroupKey) (ms : List Member)
    → is_same group_discrete key key' ≡ true
    → in_members id key ms ≡ in_members id key' ms
same_group id key key' ms h =
    ap (λ k. in_members id k ms) ((is_same_iff group_discrete key key').0 h)

-- Writing a group replaces its members.
insert-in_groups :
    (id : Identity) (key : ShardGroupKey) (v : List Member) (groups : Groups)
    → in_groups id (insert group_discrete key v groups)
        + in_members id key (or_no_members (lookup group_discrete key groups))
      ≡ in_groups id groups + in_members id key v
unfolding lookup insert
insert-in_groups id key v [] = omega arith
insert-in_groups id key v ((key', ms) ∷ groups) =
    ground (arith, same_group id key key' ms, insert-in_groups id key v groups)

with_member-in_groups :
    (id : Identity) (key : ShardGroupKey) (m : Member) (groups : Groups)
    → in_groups id (with_member key m groups) ≡ in_groups id groups + in_members id key (m ∷ [])
with_member-in_groups id key m groups =
    let before = or_no_members (lookup group_discrete key groups) in
    omega
      (arith, insert-in_groups id key (before ++ m ∷ []) groups, in_members-append id key before m)

-- One candidate's turn.
candidate-in_groups :
    (dropping : Bool) (samples : ℤ) (id : Identity) (c : ShardCandidate) (groups : Groups)
    → in_groups id
        (if dropping then groups else with_member (group_of c) (member_of samples c) groups)
      ≡ in_groups id groups
        + (if dropping then 0 else if is_same identity_discrete id c.identity then 1 else 0)
candidate-in_groups true samples id c groups = omega arith
candidate-in_groups false samples id c groups =
    omega (arith, with_member-in_groups id (group_of c) (member_of samples c) groups)

grouped-in_groups :
    (samples : ℤ) (id : Identity) (cands : List ShardCandidate) (groups : Groups)
    (dropped : List ShardCandidate)
    → in_groups id (grouped samples cands groups dropped).0
      ≡ in_groups id groups + in_candidates id cands
unfolding grouped
grouped-in_groups samples id [] groups dropped = omega arith
grouped-in_groups samples id (c ∷ cands) groups dropped =
    let next =
      if is_dropped c then groups else with_member (group_of c) (member_of samples c) groups in
    omega (
      arith,
      grouped-in_groups samples id cands next (if is_dropped c then dropped ++ c ∷ [] else dropped),
      candidate-in_groups (is_dropped c) samples id c groups,
    )

-- The shards select each identity as often as the candidates name it that are not dropped: they
-- leave out none and select none that was not asked for.
pub build_shards-in_shards :
    (cands : List ShardCandidate) (samples max_samples : ℤ) (id : Identity)
    → in_shards id (build_shards cands samples max_samples).0 ≡ in_candidates id cands
unfolding build_shards
build_shards-in_shards cands samples max_samples id =
    let groups = (grouped (at_least_one samples) cands [] []).0 in
    omega (
      arith,
      pack_groups-in_shards max_samples id (sorted_by is_later_group groups) [],
      in_groups-sorted id groups,
      grouped-in_groups (at_least_one samples) id cands [] [],
    )
