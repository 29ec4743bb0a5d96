-- ===== src/OomWatch/Sound.antt =====
-- The invariant of the cache of internal/oomwatch/cache.go: its size is bounded and its index
-- knows exactly the containers that have an entry.
use k8s_sustain.Prelude.{
  ℕ, ◌≤◌, ◌<◌, ◌≡◌, refl, sym, ap, ◌∙◌, Bool, true, false, Option, none, some, List, [], ◌∷◌,
  lookup, insert, delete, length, arith, if◌then◌else◌, if_both, Distinct, insert-Distinct,
  delete-Distinct, is_some, is_filled, leb, ltb, not, ◌&&◌, lookup-insert, lookup-delete,
  length-insert-le, length-insert_present, length-delete-le, length-delete-lt,
}
use mathlib.Core.Path.{subst}
use k8s_sustain.Prelude.Time.{Time}
use k8s_sustain.OomWatch.{Key, key_discrete, OomRecord}
use k8s_sustain.OomWatch.Cache.{
  Cache, event_discrete, ResolvedEventKey, delete_entry, evict_found, evict_oldest,
  evict_oldest_resolved, evict_found_resolved, store, make_room, record_kill, record_over,
  repeat_kill, same_kill, merge, resolved_full, mark_resolved, delete_if_stale, delete_stale,
  drop_stale, is_stale,
}
use k8s_sustain.OomWatch.Index.{indexed, add_index-indexed, remove_index-indexed}
use k8s_sustain.OomWatch.Eviction.{oldest-Stands}

pub record IsSound (c : Cache) : Type 0 where
  pub some_room : 0 < c.max_entries
  pub entries_fit : length c.entries ≤ c.max_entries
  pub resolved_fit : length c.resolved ≤ c.max_entries
  pub entries_distinct : Distinct key_discrete c.entries
  pub resolved_distinct : Distinct event_discrete c.resolved
  pub in_sync : (q : Key) → is_some (lookup key_discrete q c.entries) ≡ indexed c.by_workload q

pub filled_of_length {ℓ} :
    {A : Type ℓ} (m : List A) (n : ℕ) → 0 < n → n ≤ length m → is_filled m ≡ true
filled_of_length [] n p q = ground arith
filled_of_length (x ∷ m) n p q = refl

pub delete_entry-IsSound : (key : Key) (c : Cache) → IsSound c → IsSound (delete_entry key c)
unfolding delete_entry
delete_entry-IsSound key c s = record {
  some_room = s.some_room;
  entries_fit = omega (arith, s.entries_fit, length-delete-le key_discrete key c.entries);
  resolved_fit = s.resolved_fit;
  entries_distinct = delete-Distinct key_discrete key c.entries s.entries_distinct;
  resolved_distinct = s.resolved_distinct;
  in_sync = λ q. ground (
    arith,
    remove_index-indexed key q c.by_workload,
    lookup-delete key_discrete key q c.entries,
    s.in_sync q,
  );
}

store-IsSound :
    (key : Key) (r : OomRecord) (c : Cache)
    → length (insert key_discrete key r c.entries) ≤ c.max_entries
    → IsSound c
    → IsSound (store key r c)
store-IsSound key r c fits s = record {
  some_room = s.some_room;
  entries_fit = fits;
  resolved_fit = s.resolved_fit;
  entries_distinct = insert-Distinct key_discrete key r c.entries s.entries_distinct;
  resolved_distinct = s.resolved_distinct;
  in_sync = λ q. ground (
    arith,
    add_index-indexed key q c.by_workload,
    lookup-insert key_discrete key q r c.entries,
    s.in_sync q,
  );
}

abbrev HasRoom : Cache → Cache → Type 0
HasRoom c d = IsSound d × (length d.entries < c.max_entries) × (d.max_entries ≡ c.max_entries)

-- Evicting from a full cache frees room.
evict_oldest-HasRoom :
    (c : Cache) → IsSound c → c.max_entries ≤ length c.entries → HasRoom c (evict_oldest c)
unfolding evict_oldest delete_entry
evict_oldest-HasRoom c s full =
    let (b, found, _, (r, present, _)) =
      oldest-Stands key_discrete (λ r. r.observed_at) c.entries
        (filled_of_length c.entries c.max_entries s.some_room full) s.entries_distinct in
    let less = length-delete-lt key_discrete b.0 r c.entries present in
    subst (λ o. HasRoom c (evict_found o c)) (sym found)
      (delete_entry-IsSound b.0 c s, omega (arith, less, s.entries_fit), refl)

make_room-HasRoom :
    (full : Bool) (c : Cache)
    → leb c.max_entries (length c.entries) ≡ full
    → IsSound c
    → HasRoom c (if full then evict_oldest c else c)
make_room-HasRoom true c e s = evict_oldest-HasRoom c s (ground arith)
make_room-HasRoom false c e s = (s, ground arith, refl)

repeat_kill-IsSound :
    (key : Key) (r existing : OomRecord) (c : Cache)
    → lookup key_discrete key c.entries ≡ some existing
    → IsSound c
    → IsSound (record c { entries = insert key_discrete key r c.entries })
repeat_kill-IsSound key r existing c e s = record {
  some_room = s.some_room;
  entries_fit =
      omega (arith, s.entries_fit, length-insert_present key_discrete key r existing c.entries e);
  resolved_fit = s.resolved_fit;
  entries_distinct = insert-Distinct key_discrete key r c.entries s.entries_distinct;
  resolved_distinct = s.resolved_distinct;
  in_sync = λ q.
      let same : q ≡ key → lookup key_discrete q c.entries ≡ some existing =
        λ p. ap (λ k. lookup key_discrete k c.entries) p ∙ e in
      ground (arith, same, lookup-insert key_discrete key q r c.entries, s.in_sync q);
}

record_over-IsSound :
    (o : Option OomRecord) (key : Key) (r : OomRecord) (c : Cache)
    → lookup key_discrete key c.entries ≡ o
    → IsSound c
    → IsSound (record_over key r c o).0
unfolding record_over
record_over-IsSound none key r c e s =
    let (sound, room, same) = make_room-HasRoom (leb c.max_entries (length c.entries)) c refl s in
    store-IsSound key r (make_room c)
      (omega (arith, room, same, length-insert-le key_discrete key r (make_room c).entries)) sound
record_over-IsSound (some existing) key r c e s =
    let raised = record existing { oom_limit_bytes = r.oom_limit_bytes } in
    if_both {A = Cache × Bool} (λ p. IsSound p.0) (same_kill existing r)
      (repeat_kill key r existing c, false) (store key (merge r existing) c, true)
      (if_both IsSound (ltb existing.oom_limit_bytes r.oom_limit_bytes)
        (record c { entries = insert key_discrete key raised c.entries }) c
        (repeat_kill-IsSound key raised existing c e s) s)
      (store-IsSound key (merge r existing) c
        (omega (
          arith,
          s.entries_fit,
          length-insert_present key_discrete key (merge r existing) existing c.entries e,
        ))
        s)

-- `Record` keeps the cache sound: never more entries than the limit, and the index in step.
pub record_kill-IsSound :
    (key : Key) (r : OomRecord) (c : Cache) → IsSound c → IsSound (record_kill key r c).0
unfolding record_kill
record_kill-IsSound key r c s =
    record_over-IsSound (lookup key_discrete key c.entries) key r c refl s

delete_stale-IsSound :
    (o : Option OomRecord) (key : Key) (now : Time) (c : Cache)
    → IsSound c
    → IsSound (delete_stale key now c o)
unfolding delete_stale
delete_stale-IsSound none key now c s = s
delete_stale-IsSound (some entry) key now c s =
    if_both IsSound (is_stale c now entry.observed_at) (delete_entry key c) c
      (delete_entry-IsSound key c s) s

-- Deleting stale entries keeps the cache sound.
pub drop_stale-IsSound :
    (keys : List Key) (now : Time) (c : Cache) → IsSound c → IsSound (drop_stale keys now c)
unfolding drop_stale delete_if_stale
drop_stale-IsSound [] now c s = s
drop_stale-IsSound (key ∷ keys) now c s =
    drop_stale-IsSound keys now _
      (delete_stale-IsSound (lookup key_discrete key c.entries) key now c s)

with_resolved-IsSound :
    (m : List (ResolvedEventKey × Time)) (c : Cache)
    → length m ≤ c.max_entries
    → Distinct event_discrete m
    → IsSound c
    → IsSound (record c { resolved = m })
with_resolved-IsSound m c fits d s = record {
  some_room = s.some_room;
  entries_fit = s.entries_fit;
  resolved_fit = fits;
  entries_distinct = s.entries_distinct;
  resolved_distinct = d;
  in_sync = s.in_sync;
}

-- The marks with room for one more.
abbrev RoomyMarks : ResolvedEventKey → Time → Cache → List (ResolvedEventKey × Time) → Type 0
RoomyMarks key now c m =
    (length (insert event_discrete key now m) ≤ c.max_entries) × Distinct event_discrete m

full_marks :
    (key : ResolvedEventKey) (now : Time) (c : Cache)
    → IsSound c
    → c.max_entries ≤ length c.resolved
    → (m : List (ResolvedEventKey × Time)) × (evict_oldest_resolved c ≡ record c { resolved = m })
      × RoomyMarks key now c m
unfolding evict_oldest_resolved
full_marks key now c s full =
    let (b, found, _, (at, present, _)) =
      oldest-Stands event_discrete (λ at. at) c.resolved
        (filled_of_length c.resolved c.max_entries s.some_room full) s.resolved_distinct in
    let m = delete event_discrete b.0 c.resolved in
    (
      m,
      ap (λ o. evict_found_resolved o c) found,
      (
        omega (
          arith,
          s.resolved_fit,
          length-insert-le event_discrete key now m,
          length-delete-lt event_discrete b.0 at c.resolved present,
        ),
        delete-Distinct event_discrete b.0 c.resolved s.resolved_distinct,
      ),
    )

roomy_marks :
    (o : Option Time) (key : ResolvedEventKey) (now : Time) (c : Cache)
    → IsSound c
    → lookup event_discrete key c.resolved ≡ o
    → (not (is_some o) && leb c.max_entries (length c.resolved)) ≡ false
    → RoomyMarks key now c c.resolved
roomy_marks none key now c s h e =
    (ground (arith, length-insert-le event_discrete key now c.resolved), s.resolved_distinct)
roomy_marks (some at) key now c s h e = (
  omega (arith, s.resolved_fit, length-insert_present event_discrete key now at c.resolved h),
  s.resolved_distinct,
)

mark_over-IsSound :
    (full : Bool) (key : ResolvedEventKey) (now : Time) (c : Cache)
    → resolved_full key c ≡ full
    → IsSound c
    → IsSound (record (if full then evict_oldest_resolved c else c) {
      resolved =
          insert event_discrete key now (if full then evict_oldest_resolved c else c).resolved;
    })
mark_over-IsSound true key now c e s =
    let (m, evicted, (fits, d)) = full_marks key now c s (ground arith) in
    subst (λ d. IsSound (record d { resolved = insert event_discrete key now d.resolved }))
      (sym evicted)
      (with_resolved-IsSound (insert event_discrete key now m) c fits
        (insert-Distinct event_discrete key now m d) s)
mark_over-IsSound false key now c e s =
    let (fits, d) = roomy_marks (lookup event_discrete key c.resolved) key now c s refl e in
    with_resolved-IsSound (insert event_discrete key now c.resolved) c fits
      (insert-Distinct event_discrete key now c.resolved d) s

-- Marking a kill as resolved keeps the cache sound: the marks, too, are never more than the limit.
pub mark_resolved-IsSound :
    (key : ResolvedEventKey) (now : Time) (c : Cache)
    → IsSound c
    → IsSound (mark_resolved key now c)
unfolding mark_resolved
mark_resolved-IsSound key now c s = mark_over-IsSound (resolved_full key c) key now c refl s
