-- ===== src/OomWatch/Reads.antt =====
-- What a read, a late deletion and a sweep of internal/oomwatch/cache.go leave of each entry.
use k8s_sustain.Prelude.{
  ◌≡◌, refl, ap, ◌∙◌, Bool, true, false, Option, none, some, List, [], ◌∷◌, String, String-discrete,
  lookup, ite, arith, if◌then◌else◌, is_some, map, lookup-insert, lookup-delete,
}
use k8s_sustain.Prelude.Int.{ℤ, ltb_ℤ}
use k8s_sustain.Prelude.Time.{Time, sub}
use k8s_sustain.OomWatch.{Identity, identity_discrete, Key, key_discrete, OomRecord}
use k8s_sustain.OomWatch.Index.{indexed}
use k8s_sustain.OomWatch.Sound.{IsSound}
use k8s_sustain.OomWatch.Cache.{
  Cache, delete_entry, delete_stale, delete_if_stale, drop_stale, is_stale, sweep, read_container,
  read_containers, read_workload, containers_of,
}

-- An entry that is no older than the cache's retention.
unfoldable pub fresh : ℤ → Time → Option OomRecord → Option OomRecord
fresh ttl now none = none
fresh ttl now (some e) = if ltb_ℤ ttl (sub now e.observed_at) then none else some e

fresh_again :
    (ttl : ℤ) (now : Time) (o : Option OomRecord)
    → fresh ttl now (fresh ttl now o) ≡ fresh ttl now o
unfolding fresh
fresh_again ttl now none = refl
fresh_again ttl now (some e) = ground arith

delete_stale-lookup :
    (o : Option OomRecord) (key q : Key) (now : Time) (c : Cache)
    → lookup key_discrete key c.entries ≡ o
    → lookup key_discrete q (delete_stale key now c o).entries
      ≡ ite
          (key_discrete q key)
          (fresh c.ttl now (lookup key_discrete q c.entries))
          (lookup key_discrete q c.entries)
unfolding delete_stale is_stale delete_entry fresh
delete_stale-lookup none key q now c h =
    let same : q ≡ key → lookup key_discrete q c.entries ≡ none =
      λ p. ap (λ k. lookup key_discrete k c.entries) p ∙ h in
    ground (arith, same)
delete_stale-lookup (some e) key q now c h =
    let same : q ≡ key → lookup key_discrete q c.entries ≡ some e =
      λ p. ap (λ k. lookup key_discrete k c.entries) p ∙ h in
    ground (arith, same, lookup-delete key_discrete key q c.entries)

delete_stale-ttl :
    (o : Option OomRecord) (key : Key) (now : Time) (c : Cache)
    → (delete_stale key now c o).ttl ≡ c.ttl
unfolding delete_stale delete_entry
delete_stale-ttl none key now c = refl
delete_stale-ttl (some e) key now c = ground arith

-- Whether a key is among some.
abbrev pub listed : Key → List Key → Bool
listed q [] = false
listed q (k ∷ ks) = ite (key_discrete q k) true (listed q ks)

-- Each key that a deletion names is read again: its entry goes when it is stale by then, whatever
-- came between the read and the deletion, and every other entry stays.
pub drop_stale-lookup :
    (keys : List Key) (q : Key) (now : Time) (c : Cache)
    → lookup key_discrete q (drop_stale keys now c).entries ≡ (
        if listed q keys
        then fresh c.ttl now (lookup key_discrete q c.entries)
        else lookup key_discrete q c.entries)
unfolding drop_stale delete_if_stale
drop_stale-lookup [] q now c = refl
drop_stale-lookup (key ∷ keys) q now c =
    let o = lookup key_discrete key c.entries in
    let d = delete_stale key now c o in
    ground (
      arith,
      drop_stale-lookup keys q now d,
      delete_stale-lookup o key q now c refl,
      delete_stale-ttl o key now c,
      fresh_again c.ttl now (lookup key_discrete q c.entries),
    )

listed-lookup :
    (q : Key) (m : List (Key × OomRecord))
    → listed q (map (λ e. e.0) m) ≡ is_some (lookup key_discrete q m)
unfolding lookup
listed-lookup q [] = refl
listed-lookup q ((k, e) ∷ m) = ground (arith, listed-lookup q m)

swept-lookup :
    (o : Option OomRecord) (q : Key) (now : Time) (c : Cache)
    → lookup key_discrete q c.entries ≡ o
    → lookup key_discrete q (drop_stale (map (λ e. e.0) c.entries) now c).entries
      ≡ fresh c.ttl now (lookup key_discrete q c.entries)
unfolding fresh
swept-lookup none q now c h =
    ground
      (arith, h, drop_stale-lookup (map (λ e. e.0) c.entries) q now c, listed-lookup q c.entries)
swept-lookup (some e) q now c h =
    ground
      (arith, h, drop_stale-lookup (map (λ e. e.0) c.entries) q now c, listed-lookup q c.entries)

-- After a sweep the cache holds exactly the entries that are not stale.
pub sweep-lookup :
    (q : Key) (now : Time) (c : Cache)
    → lookup key_discrete q (sweep now c).entries
      ≡ fresh c.ttl now (lookup key_discrete q c.entries)
unfolding sweep
sweep-lookup q now c = swept-lookup (lookup key_discrete q c.entries) q now c refl

abbrev or_else : Option OomRecord → Option OomRecord → Option OomRecord
or_else none y = y
or_else (some e) y = some e

read_container-lookup :
    (o : Option OomRecord) (id : Identity) (container x : String) (now : Time) (c : Cache)
    (acc : List (String × OomRecord) × List Key)
    → lookup key_discrete (id, container) c.entries ≡ o
    → lookup String-discrete x (read_container id container now c acc).0
      ≡ ite
          (String-discrete x container)
          (or_else
            (fresh c.ttl now (lookup key_discrete (id, x) c.entries))
            (lookup String-discrete x acc.0))
          (lookup String-discrete x acc.0)
unfolding read_container is_stale fresh
read_container-lookup none id container x now c (out, stale) h =
    let same : x ≡ container → lookup key_discrete (id, x) c.entries ≡ none =
      λ p. ap (λ k. lookup key_discrete (id, k) c.entries) p ∙ h in
    ground (arith, h, same)
read_container-lookup (some e) id container x now c (out, stale) h =
    let same : x ≡ container → lookup key_discrete (id, x) c.entries ≡ some e =
      λ p. ap (λ k. lookup key_discrete (id, k) c.entries) p ∙ h in
    ground (arith, h, same, lookup-insert String-discrete container x e out)

read_containers-lookup :
    (s : List (String × Unit {0})) (id : Identity) (x : String) (now : Time) (c : Cache)
    (acc : List (String × OomRecord) × List Key)
    → lookup String-discrete x (read_containers id s now c acc).0 ≡ (
        if is_some (lookup String-discrete x s)
        then or_else
            (fresh c.ttl now (lookup key_discrete (id, x) c.entries))
            (lookup String-discrete x acc.0)
        else lookup String-discrete x acc.0)
unfolding read_containers lookup
read_containers-lookup [] id x now c acc = refl
read_containers-lookup ((container, u) ∷ s) id x now c acc = ground (
  arith,
  read_containers-lookup s id x now c (read_container id container now c acc),
  read_container-lookup (lookup key_discrete (id, container) c.entries) id container x now c acc
      refl,
)

nothing-lookup : (x : String) → lookup {B = OomRecord} String-discrete x [] ≡ none
unfolding lookup
nothing-lookup x = refl

read_known :
    (o : Option OomRecord) (id : Identity) (x : String) (now : Time) (c : Cache)
    → IsSound c
    → lookup key_discrete (id, x) c.entries ≡ o
    → lookup String-discrete x (read_workload id now c).0
      ≡ fresh c.ttl now (lookup key_discrete (id, x) c.entries)
unfolding read_workload indexed fresh
read_known none id x now c s h =
    let known = containers_of (lookup identity_discrete id c.by_workload) in
    ground (
      arith,
      h,
      read_containers-lookup known id x now c ([], []),
      s.in_sync (id, x),
      nothing-lookup x,
    )
read_known (some e) id x now c s h =
    let known = containers_of (lookup identity_discrete id c.by_workload) in
    ground (
      arith,
      h,
      read_containers-lookup known id x now c ([], []),
      s.in_sync (id, x),
      nothing-lookup x,
    )

-- The read pass of `ByWorkload` answers, for each container of the identity, its entry when the
-- cache is sound and holds one that is not stale, and nothing for any other container.
pub read_workload-lookup :
    (id : Identity) (x : String) (now : Time) (c : Cache)
    → IsSound c
    → lookup String-discrete x (read_workload id now c).0
      ≡ fresh c.ttl now (lookup key_discrete (id, x) c.entries)
read_workload-lookup id x now c s =
    read_known (lookup key_discrete (id, x) c.entries) id x now c s refl
