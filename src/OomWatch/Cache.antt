-- ===== src/OomWatch/Cache.antt =====
-- internal/oomwatch/cache.go: the cache of OOM observations. Each operation under the lock is one
-- step on the state; the clock's instant is an argument. The size observer is left out.
use k8s_sustain.Prelude.{
  ℕ, zero, suc, ◌*◌, Bool, true, false, ◌&&◌, not, Option, none, some, List, [], ◌∷◌, ◌++◌, map,
  String, String-discrete, pair_discrete, ℕ_discrete, lookup, insert, delete, length, is_filled,
  is_some, max, ltb, leb, ◌==◌, if◌then◌else◌,
}
use k8s_sustain.Prelude.Int.{ℤ, pos, negsuc, ltb_ℤ, leb_ℤ}
use k8s_sustain.Prelude.Time.{Time, before, after, sub, minute}
use k8s_sustain.OomWatch.{Identity, identity_discrete, Key, key_discrete, OomRecord}

abbrev pub default_ttl : ℤ
default_ttl = pos (30 * minute)

abbrev pub default_max_entries : ℕ
default_max_entries = 5_000

-- The pod's UID, the container, the restart count and the instant of the termination.
abbrev pub ResolvedEventKey : Type 0
ResolvedEventKey = (String × String) × (ℕ × Time)

abbrev pub event_discrete : Discrete ResolvedEventKey
event_discrete =
    pair_discrete (pair_discrete String-discrete String-discrete)
      (pair_discrete ℕ_discrete ℕ_discrete)

-- The containers of an identity that have an entry, by identity.
abbrev pub Index : Type 0
Index = List (Identity × List (String × Unit {0}))

pub record Cache : Type 0 where
  pub ttl : ℤ
  pub max_entries : ℕ
  pub entries : List (Key × OomRecord)
  pub by_workload : Index
  pub resolved : List (ResolvedEventKey × Time)

abbrev limit_or_default : ℤ → ℕ
limit_or_default (pos zero) = default_max_entries
limit_or_default (pos (suc n)) = suc n
limit_or_default (negsuc _) = default_max_entries

-- `NewCacheWithLimit`.
unfoldable pub new_cache_with_limit : ℤ → ℤ → Cache
new_cache_with_limit ttl limit = record {
  ttl = if leb_ℤ ttl (pos 0) then default_ttl else ttl;
  max_entries = limit_or_default limit;
  entries = [];
  by_workload = [];
  resolved = [];
}

unfoldable pub is_stale : Cache → Time → Time → Bool
is_stale c now at = ltb_ℤ c.ttl (sub now at)

unfoldable pub newer_than : OomRecord → OomRecord → Bool
newer_than a b =
    if a.terminated_at == b.terminated_at
    then ltb b.restart_count a.restart_count
    else after a.terminated_at b.terminated_at

abbrev pub later_of : Time → Time → Time
later_of a b = if after b a then b else a

abbrev pub same_kill : OomRecord → OomRecord → Bool
same_kill a b = (a.restart_count == b.restart_count) && (a.terminated_at == b.terminated_at)

-- The winning identity, the largest limit that was killed and the later observation.
unfoldable pub merge : OomRecord → OomRecord → OomRecord
unfolding newer_than
merge r existing =
    let winner = if newer_than r existing then r else existing in
    record winner {
      oom_limit_bytes = max r.oom_limit_bytes existing.oom_limit_bytes;
      observed_at = later_of r.observed_at existing.observed_at;
    }

-- The identity's set of containers in the index, empty where there is none.
abbrev pub containers_of : Option (List (String × Unit {0})) → List (String × Unit {0})
containers_of none = []
containers_of (some s) = s

unfoldable pub add_index : Key → Index → Index
add_index (id, container) index =
    insert identity_discrete id
      (insert String-discrete container tt (containers_of (lookup identity_discrete id index)))
      index

unfoldable pub remove_index : Key → Index → Index
remove_index (id, container) index = elim (lookup identity_discrete id index) [
  | none ↦ index
  | some s ↦
      let rest = delete String-discrete container s in
      if is_filled rest
      then insert identity_discrete id rest index
      else delete identity_discrete id index
]

unfoldable pub delete_entry : Key → Cache → Cache
unfolding remove_index
delete_entry key c = record c {
  entries = delete key_discrete key c.entries;
  by_workload = remove_index key c.by_workload;
}

module _ {K : Type 0} where
  abbrev pub older : K → Time → Option (K × Time) → K × Time
  older k t none = (k, t)
  older k t (some (j, u)) = if before t u then (k, t) else (j, u)

  module _ {V : Type 0} where
    -- The scan for the oldest; `first` of the source is a result that is still none.
    unfoldable pub oldest : (V → Time) → List (K × V) → Option (K × Time) → Option (K × Time)
    oldest time [] found = found
    oldest time ((k, v) ∷ m) found = oldest time m (some (older k (time v) found))

abbrev pub evict_found : Option (Key × Time) → Cache → Cache
evict_found none c = c
evict_found (some (key, _)) c = delete_entry key c

unfoldable pub evict_oldest : Cache → Cache
unfolding oldest delete_entry
evict_oldest c = evict_found (oldest (λ r. r.observed_at) c.entries none) c

abbrev pub evict_found_resolved : Option (ResolvedEventKey × Time) → Cache → Cache
evict_found_resolved none c = c
evict_found_resolved (some (key, _)) c = record c {
  resolved = delete event_discrete key c.resolved;
}

unfoldable pub evict_oldest_resolved : Cache → Cache
unfolding oldest
evict_oldest_resolved c = evict_found_resolved (oldest (λ at. at) c.resolved none) c

-- The writes at the end of `Record`.
abbrev pub store : Key → OomRecord → Cache → Cache
store key r c = record c {
  entries = insert key_discrete key r c.entries;
  by_workload = add_index key c.by_workload;
}

-- The kill of the stored entry again: it may raise the limit.
abbrev pub repeat_kill : Key → OomRecord → OomRecord → Cache → Cache
repeat_kill key r existing c =
    if ltb existing.oom_limit_bytes r.oom_limit_bytes
    then record c {
      entries =
          insert key_discrete key (record existing { oom_limit_bytes = r.oom_limit_bytes })
            c.entries;
    }
    else c

-- Room for a new key.
abbrev pub make_room : Cache → Cache
make_room c = if leb c.max_entries (length c.entries) then evict_oldest c else c

-- `Record` once the key is looked up, and whether the kill is new.
unfoldable pub record_over : Key → OomRecord → Cache → Option OomRecord → Cache × Bool
unfolding merge add_index evict_oldest
record_over key r c none = (store key r (make_room c), true)
record_over key r c (some existing) =
    if◌then◌else◌ {A = Cache × Bool} (same_kill existing r) (repeat_kill key r existing c, false)
      (store key (merge r existing) c, true)

unfoldable pub record_kill : Key → OomRecord → Cache → Cache × Bool
unfolding record_over
record_kill key r c = record_over key r c (lookup key_discrete key c.entries)

unfoldable pub already_resolved : ResolvedEventKey → Time → Cache → Bool
already_resolved key now c = elim (lookup event_discrete key c.resolved) [
  | none ↦ false
  | some at ↦ leb_ℤ (sub now at) c.ttl
]

abbrev pub resolved_full : ResolvedEventKey → Cache → Bool
resolved_full key c =
    not (is_some (lookup event_discrete key c.resolved)) && leb c.max_entries (length c.resolved)

unfoldable pub mark_resolved : ResolvedEventKey → Time → Cache → Cache
unfolding evict_oldest_resolved
mark_resolved key now c =
    let roomy = if resolved_full key c then evict_oldest_resolved c else c in
    record roomy { resolved = insert event_discrete key now roomy.resolved }

-- An entry as it is found again under the write lock.
unfoldable pub delete_stale : Key → Time → Cache → Option OomRecord → Cache
unfolding is_stale delete_entry
delete_stale key now c none = c
delete_stale key now c (some entry) =
    if is_stale c now entry.observed_at then delete_entry key c else c

unfoldable pub delete_if_stale : Key → Time → Cache → Cache
unfolding delete_stale
delete_if_stale key now c = delete_stale key now c (lookup key_discrete key c.entries)

unfoldable pub drop_stale : List Key → Time → Cache → Cache
unfolding delete_if_stale
drop_stale [] now c = c
drop_stale (key ∷ keys) now c = drop_stale keys now (delete_if_stale key now c)

-- One container's part in the read pass of `ByWorkload`.
unfoldable pub read_container :
    Identity
    → String
    → Time
    → Cache
    → List (String × OomRecord) × List Key
    → List (String × OomRecord) × List Key
unfolding is_stale
read_container id container now c (out, stale) =
    elim (lookup key_discrete (id, container) c.entries) [
      | none ↦ (out, stale)
      | some entry ↦
          if◌then◌else◌ {A = List (String × OomRecord) × List Key}
            (is_stale c now entry.observed_at) (out, stale ++ (id, container) ∷ [])
            (insert String-discrete container entry out, stale)
    ]

unfoldable pub read_containers :
    Identity
    → List (String × Unit {0})
    → Time
    → Cache
    → List (String × OomRecord) × List Key
    → List (String × OomRecord) × List Key
unfolding read_container
read_containers id [] now c acc = acc
read_containers id ((container, _) ∷ containers) now c acc =
    read_containers id containers now c (read_container id container now c acc)

-- The read pass of `ByWorkload`: the records it answers, and the stale keys it met.
unfoldable pub read_workload : Identity → Time → Cache → List (String × OomRecord) × List Key
unfolding read_containers
read_workload id now c =
    read_containers id (containers_of (lookup identity_discrete id c.by_workload)) now c ([], [])

keep_fresh : Cache → Time → List (ResolvedEventKey × Time) → List (ResolvedEventKey × Time)
unfolding is_stale
keep_fresh c now [] = []
keep_fresh c now ((key, at) ∷ m) =
    let rest = keep_fresh c now m in if is_stale c now at then rest else (key, at) ∷ rest

unfoldable pub sweep : Time → Cache → Cache
unfolding drop_stale keep_fresh
sweep now c =
    let swept = drop_stale (map (λ e. e.0) c.entries) now c in
    record swept { resolved = keep_fresh c now c.resolved }
