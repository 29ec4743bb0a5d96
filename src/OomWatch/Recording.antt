-- ===== src/OomWatch/Recording.antt =====
-- What `Record` of internal/oomwatch/cache.go leaves under its key and under the others.
use mathlib.Core.Path.{subst}
use k8s_sustain.Prelude.{
  ◌≤◌, ◌≡◌, ◌≢◌, refl, sym, ap, ◌∙◌, Bool, true, false, not, Option, none, some, lookup, insert,
  arith, max, if◌then◌else◌, All, ◌⊎◌, inl, inr, leb, ltb, length, lookup-insert_self,
  lookup-insert_ne, lookup-delete_ne, lookup-delete_self, delete, if_both,
}
use k8s_sustain.Prelude.Time.{Time, sub}
use k8s_sustain.Prelude.Int.{leb_ℤ}
use k8s_sustain.OomWatch.{Key, key_discrete, OomRecord}
use k8s_sustain.OomWatch.Cache.{
  Cache, record_kill, record_over, repeat_kill, same_kill, merge, store, make_room, evict_oldest,
  evict_found, delete_entry, event_discrete, ResolvedEventKey, already_resolved, mark_resolved,
  newer_than, resolved_full, evict_oldest_resolved, evict_found_resolved, oldest,
}
use k8s_sustain.OomWatch.Eviction.{oldest-Stands}
use k8s_sustain.OomWatch.Sound.{IsSound, filled_of_length}

-- The record stored over an existing one: the largest limit that was killed, and an observation
-- that is no earlier.
abbrev pub Merged : OomRecord → OomRecord → OomRecord → Type 0
Merged r existing m =
    (m.oom_limit_bytes ≡ max r.oom_limit_bytes existing.oom_limit_bytes)
    × (existing.observed_at ≤ m.observed_at)

merge-Merged : (r existing : OomRecord) → Merged r existing (merge r existing)
unfolding merge newer_than
merge-Merged r existing = (refl, ground arith)

-- What a call that finds a record under its key leaves and answers.
abbrev pub Recorded : Key → OomRecord → OomRecord → Bool → Cache × Bool → Type 0
Recorded key r existing same p =
    (m : OomRecord) × (lookup key_discrete key p.0.entries ≡ some m)
    × Merged r existing m
    × (p.1 ≡ not same)

repeat_kill-Recorded :
    (larger : Bool) (key : Key) (r existing : OomRecord) (c : Cache)
    → lookup key_discrete key c.entries ≡ some existing
    → ltb existing.oom_limit_bytes r.oom_limit_bytes ≡ larger
    → Recorded key r existing true (
      if larger
          then record c {
            entries =
                insert key_discrete key
                  (record existing { oom_limit_bytes = r.oom_limit_bytes })
                  c.entries;
          }
          else c,
      false,
    )
repeat_kill-Recorded true key r existing c h l =
    let raised = record existing { oom_limit_bytes = r.oom_limit_bytes } in
    (
      raised,
      lookup-insert_self key_discrete key raised c.entries,
      (ground arith, omega arith),
      refl,
    )
repeat_kill-Recorded false key r existing c h l = (existing, h, (ground arith, omega arith), refl)

record_over-Recorded :
    (same : Bool) (key : Key) (r existing : OomRecord) (c : Cache)
    → lookup key_discrete key c.entries ≡ some existing
    → Recorded key r existing same (
        if◌then◌else◌ {A = Cache × Bool} same
          (repeat_kill key r existing c, false)
          (store key (merge r existing) c, true))
record_over-Recorded true key r existing c h =
    repeat_kill-Recorded (ltb existing.oom_limit_bytes r.oom_limit_bytes) key r existing c h refl
record_over-Recorded false key r existing c h = (
  merge r existing,
  lookup-insert_self key_discrete key (merge r existing) c.entries,
  merge-Merged r existing,
  refl,
)

-- When the cache holds a record under the key, `Record` leaves one whose limit is the larger of
-- both and whose observation is no earlier, and answers that the kill is new exactly when its
-- restart count or its termination differs from the stored one's.
pub record_kill-Recorded :
    (key : Key) (r existing : OomRecord) (c : Cache)
    → lookup key_discrete key c.entries ≡ some existing
    → Recorded key r existing (same_kill existing r) (record_kill key r c)
unfolding record_kill record_over
record_kill-Recorded key r existing c h =
    subst (λ o. Recorded key r existing (same_kill existing r) (record_over key r c o)) (sym h)
      (record_over-Recorded (same_kill existing r) key r existing c h)

-- An entry stays, or was evicted from a full cache that holds no older one.
abbrev pub Kept : Key → OomRecord → Cache → Cache → Type 0
Kept q e c d =
    (lookup key_discrete q d.entries ≡ some e)
    ⊎ ((lookup key_discrete q d.entries ≡ none)
        × (c.max_entries ≤ length c.entries)
        × All (λ x. e.observed_at ≤ x.1.observed_at) c.entries)

evict_oldest-Kept :
    (q : Key) (e : OomRecord) (c : Cache)
    → IsSound c
    → c.max_entries ≤ length c.entries
    → lookup key_discrete q c.entries ≡ some e
    → Kept q e c (evict_oldest c)
unfolding evict_oldest delete_entry
evict_oldest-Kept q e c s full h =
    let (b, found, all, (v, present, at)) =
      oldest-Stands key_discrete (λ r. r.observed_at) c.entries
        (filled_of_length c.entries c.max_entries s.some_room full) s.entries_distinct in
    subst (λ o. Kept q e c (evict_found o c)) (sym found)
      (elim (key_discrete q b.0) [
        | no ne ↦ inl (lookup-delete_ne key_discrete b.0 q c.entries ne ∙ h)
        | yes p ↦
            let gone : lookup key_discrete q (delete key_discrete b.0 c.entries) ≡ none =
              ap (λ k. lookup key_discrete k (delete key_discrete b.0 c.entries)) p
              ∙ lookup-delete_self key_discrete b.0 c.entries in
            let same : some e ≡ some v =
              sym h ∙ (ap (λ k. lookup key_discrete k c.entries) p ∙ present) in
            let seen : e.observed_at ≡ v.observed_at =
              ap (λ o. elim o [ none ↦ e.observed_at | some x ↦ x.observed_at ]) same in
            let time : b.1 ≡ e.observed_at = sym (seen ∙ at) in
            inr (gone, full, subst (λ t. All (λ x. t ≤ x.1.observed_at) c.entries) time all)
      ])

room-Kept :
    (full : Bool) (q : Key) (e : OomRecord) (c : Cache)
    → leb c.max_entries (length c.entries) ≡ full
    → IsSound c
    → lookup key_discrete q c.entries ≡ some e
    → Kept q e c (if full then evict_oldest c else c)
room-Kept true q e c l s h = evict_oldest-Kept q e c s (ground arith) h
room-Kept false q e c l s h = inl h

insert-Kept :
    (key q : Key) (r e : OomRecord) (c d : Cache)
    → q ≢ key
    → Kept q e c d
    → Kept q e c (store key r d)
insert-Kept key q r e c d ne (inl h) = inl (lookup-insert_ne key_discrete key q r d.entries ne ∙ h)
insert-Kept key q r e c d ne (inr (h, full, all)) =
    inr (lookup-insert_ne key_discrete key q r d.entries ne ∙ h, full, all)

record_over-Kept :
    (o : Option OomRecord) (key q : Key) (r e : OomRecord) (c : Cache)
    → IsSound c
    → q ≢ key
    → lookup key_discrete q c.entries ≡ some e
    → Kept q e c (record_over key r c o).0
unfolding record_over
record_over-Kept none key q r e c s ne h =
    insert-Kept key q r e c (make_room c) ne
      (room-Kept (leb c.max_entries (length c.entries)) q e c refl s h)
record_over-Kept (some existing) key q r e c s ne h =
    let raised = record existing { oom_limit_bytes = r.oom_limit_bytes } in
    if_both {A = Cache × Bool} (λ p. Kept q e c p.0) (same_kill existing r)
      (repeat_kill key r existing c, false) (store key (merge r existing) c, true)
      (if_both (Kept q e c) (ltb existing.oom_limit_bytes r.oom_limit_bytes)
        (record c { entries = insert key_discrete key raised c.entries }) c
        (inl (lookup-insert_ne key_discrete key q raised c.entries ne ∙ h)) (inl h))
      (insert-Kept key q (merge r existing) e c c ne (inl h))

-- In a sound cache, `Record` changes no other key's entry but to evict one, and then the cache was
-- full and held no older entry.
pub record_kill-Kept :
    (key q : Key) (r e : OomRecord) (c : Cache)
    → IsSound c
    → q ≢ key
    → lookup key_discrete q c.entries ≡ some e
    → Kept q e c (record_kill key r c).0
unfolding record_kill
record_kill-Kept key q r e c s ne h =
    record_over-Kept (lookup key_discrete key c.entries) key q r e c s ne h

evict_found_resolved-ttl :
    (o : Option (ResolvedEventKey × Time)) (c : Cache) → (evict_found_resolved o c).ttl ≡ c.ttl
evict_found_resolved-ttl none c = refl
evict_found_resolved-ttl (some (key, at)) c = refl

roomy-ttl : (full : Bool) (c : Cache) → (if full then evict_oldest_resolved c else c).ttl ≡ c.ttl
unfolding evict_oldest_resolved
roomy-ttl true c = evict_found_resolved-ttl (oldest (λ at. at) c.resolved none) c
roomy-ttl false c = refl

-- A kill marked as resolved at an instant counts as resolved at another exactly when no more than
-- the retention lies between them.
pub already_resolved-mark_resolved :
    (key : ResolvedEventKey) (at now : Time) (c : Cache)
    → already_resolved key now (mark_resolved key at c) ≡ leb_ℤ (sub now at) c.ttl
unfolding already_resolved mark_resolved
already_resolved-mark_resolved key at now c =
    let roomy = if resolved_full key c then evict_oldest_resolved c else c in
    subst
      (λ o.
        (elim o [ none ↦ false | some a ↦ leb_ℤ (sub now a) roomy.ttl ]) ≡ leb_ℤ (sub now at) c.ttl)
      (sym (lookup-insert_self event_discrete key at roomy.resolved))
      (ap (leb_ℤ (sub now at)) (roomy-ttl (resolved_full key c) c))
