-- ===== src/Shards/Building.antt =====
-- internal/prometheus/shard.go: BuildShards. The groups are an association list, whose keys stand
-- in the order of `groupOrder`.
use k8s_sustain.Prelude.{
  Bool, true, false, ◌&&◌, ◌||◌, not, Option, none, some, List, [], ◌∷◌, ◌++◌, String,
  String-discrete, pair_discrete, lookup, insert, length, is_filled, leb, if◌then◌else◌,
}
use k8s_sustain.Prelude.Int.{ℤ, pos, ◌+ℤ◌, ◌*ℤ◌, ltb_ℤ, leb_ℤ, int64}
use k8s_sustain.WlrCache.{same_text}
use k8s_sustain.Shards.{ShardCandidate, Shard, ShardGroupKey, max_shard_members}
use Prim.Native.Nat.{Ordering}
use Prim.Native.String.{compare}

pub record Member : Type 0 where
  pub name : String
  pub cost : ℤ

abbrev pub Groups : Type 0
Groups = List (ShardGroupKey × List Member)

abbrev pub group_discrete : Discrete ShardGroupKey
group_discrete = pair_discrete String-discrete String-discrete

abbrev pub at_least_one : ℤ → ℤ
at_least_one n = if leb_ℤ n (pos 0) then pos 1 else n

abbrev pub is_dropped : ShardCandidate → Bool
is_dropped c =
    let (namespace, (kind, name)) = c.identity in
    same_text namespace "" || same_text kind "" || same_text name ""

abbrev pub group_of : ShardCandidate → ShardGroupKey
group_of c = let (namespace, (kind, _)) = c.identity in (namespace, kind)

abbrev pub member_of : ℤ → ShardCandidate → Member
member_of samples c =
    let (_, (_, name)) = c.identity in
    record { name = name; cost = int64 (at_least_one c.containers *ℤ samples) }

abbrev pub or_no_members : Option (List Member) → List Member
or_no_members none = []
or_no_members (some ms) = ms

abbrev pub with_member : ShardGroupKey → Member → Groups → Groups
with_member key m groups =
    insert group_discrete key (or_no_members (lookup group_discrete key groups) ++ m ∷ []) groups

-- The groups, and the candidates dropped, in order.
unfoldable pub grouped :
    ℤ → List ShardCandidate → Groups → List ShardCandidate → Groups × List ShardCandidate
grouped samples [] groups dropped = (groups, dropped)
grouped samples (c ∷ cands) groups dropped =
    grouped samples cands
      (if is_dropped c then groups else with_member (group_of c) (member_of samples c) groups)
      (if is_dropped c then dropped ++ c ∷ [] else dropped)

-- `slices.SortFunc` by insertion: which of two equal elements comes first is not specified.
abbrev pub sorted_in {ℓ} : {A : Type ℓ} → (A → A → Bool) → A → List A → List A
sorted_in is_after x [] = x ∷ []
sorted_in is_after x (y ∷ ys) =
    let rest = sorted_in is_after x ys in if is_after x y then y ∷ rest else x ∷ y ∷ ys

abbrev pub sorted_by {ℓ} : {A : Type ℓ} → (A → A → Bool) → List A → List A
sorted_by is_after [] = []
sorted_by is_after (x ∷ xs) = sorted_in is_after x (sorted_by is_after xs)

abbrev pub is_later_group : ShardGroupKey × List Member → ShardGroupKey × List Member → Bool
is_later_group ((namespace, kind), _) ((namespace', kind'), _) =
    elim (compare namespace namespace') [
      | Ordering.gt ↦ true
      | Ordering.lt ↦ false
      | Ordering.eq ↦ elim (compare kind kind') [ Ordering.gt ↦ true | _ ↦ false ]
    ]

abbrev pub is_later_member : Member → Member → Bool
is_later_member m m' = elim (compare m.name m'.name) [ Ordering.gt ↦ true | _ ↦ false ]

-- The shards so far, and the names and their total since the last one.
pub record Packing : Type 0 where
  pub shards : List Shard
  pub names : List String
  pub total : ℤ

unfoldable pub flush : ShardGroupKey → Packing → Packing
flush (namespace, kind) p = if not (is_filled p.names) then p else record {
  shards = p.shards ++ record { namespace = namespace; owner_kind = kind; names = p.names } ∷ [];
  names = [];
  total = pos 0;
}

abbrev pub is_full : ℤ → Packing → Member → Bool
is_full max_samples p m =
    is_filled p.names
    && (ltb_ℤ max_samples (int64 (p.total +ℤ m.cost)) || leb max_shard_members (length p.names))

abbrev pub with_name : Packing → Member → Packing
with_name p m = record p { names = p.names ++ m.name ∷ []; total = int64 (p.total +ℤ m.cost) }

unfoldable pub pack : ℤ → ShardGroupKey → List Member → Packing → Packing
unfolding flush
pack max_samples key [] p = p
pack max_samples key (m ∷ ms) p =
    pack max_samples key ms (with_name (if is_full max_samples p m then flush key p else p) m)

unfoldable pub pack_groups : ℤ → Groups → List Shard → List Shard
unfolding pack flush
pack_groups max_samples [] shards = shards
pack_groups max_samples ((key, members) ∷ groups) shards =
    let start : Packing = record { shards = shards; names = []; total = pos 0 } in
    pack_groups max_samples groups
      (flush key (pack max_samples key (sorted_by is_later_member members) start)).shards

-- The shards, and the candidates dropped.
unfoldable pub build_shards : List ShardCandidate → ℤ → ℤ → List Shard × List ShardCandidate
unfolding pack_groups grouped
build_shards cands samples max_samples =
    let (groups, dropped) = grouped (at_least_one samples) cands [] [] in
    (pack_groups max_samples (sorted_by is_later_group groups) [], dropped)
