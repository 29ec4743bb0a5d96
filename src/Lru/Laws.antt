-- ===== src/Lru/Laws.antt =====
-- What the LRU cache holds (internal/cache/lru.go).
use k8s_sustain.Prelude.{
  ℕ, suc, ◌≤◌, ◌≡◌, refl, ap, inl, inr, Bool, none, some, List, [], ◌∷◌, lookup, delete, length,
  ltb, is_some, arith, Option-cases, length-delete-lt, length-delete-le, if◌then◌else◌, if_both,
}
use k8s_sustain.Prelude.Int.{ℤ}
use k8s_sustain.Prelude.Time.{Time}
use k8s_sustain.Lru.{
  Entry, Lru, new_lru, drop_last, to_front, is_older_than, get, last_good_within, set,
  set_if_absent, delete_if,
}

length-drop_last : {A : Type 0} (x : A) (xs : List A) → length (drop_last (x ∷ xs)) ≡ length xs
length-drop_last x [] = refl
length-drop_last x (y ∷ xs) = ap suc (length-drop_last y xs)

module _ {K V : Type 0} (dec : Discrete K) where
  -- The caches that any calls make of a new one.
  pub data Reach : Lru K V → Type 0 where
    fresh : (max_entries : ℕ) (ttl : ℤ) (c : Lru K V) → new_lru max_entries ttl ≡ some c → Reach c
    got : {c : Lru K V} (now : Time) (key : K) → Reach c → Reach (get dec now key c).0
    stored :
        {c : Lru K V} (now : Time) (key : K) (value : V) → Reach c → Reach (set dec now key value c)
    stored_if_absent :
        {c : Lru K V} (now : Time) (key : K) (value : V)
        → Reach c
        → Reach (set_if_absent dec now key value c).0
    deleted :
        {c : Lru K V} (key : K) (match : V → Bool) → Reach c → Reach (delete_if dec key match c).0

  abbrev IsSized : Lru K V → Type 0
  IsSized c = (1 ≤ c.max_entries) × (length c.order ≤ c.max_entries)

  length-to_front :
      (key : K) (e w : Entry V) (order : List (K × Entry V))
      → lookup dec key order ≡ some w
      → length (to_front dec key e order) ≤ length order
  length-to_front key e w order h = omega (arith, length-delete-lt dec key w order h)

  get-IsSized : (now : Time) (key : K) (c : Lru K V) → IsSized c → IsSized (get dec now key c).0
  unfolding get
  get-IsSized now key c (one, size) = elim (Option-cases (lookup dec key c.order)) [
    | inl e ↦ ground (arith, e, one, size)
    | inr (w, e) ↦
        let front = length-to_front key w w c.order e in ground (arith, e, one, size, front)
  ]

  set-IsSized :
      (now : Time) (key : K) (value : V) (c : Lru K V)
      → IsSized c
      → IsSized (set dec now key value c)
  unfolding set
  set-IsSized now key value c (one, size) =
      let e : Entry V = record { value = value; stored_at = now } in
      elim (Option-cases (lookup dec key c.order)) [
        | inl h ↦ ground (arith, h, one, size, length-drop_last (key, e) c.order)
        | inr (w, h) ↦ ground (arith, h, one, size, length-to_front key e w c.order h)
      ]

  set_if_absent-IsSized :
      (now : Time) (key : K) (value : V) (c : Lru K V)
      → IsSized c
      → IsSized (set_if_absent dec now key value c).0
  unfolding set_if_absent
  set_if_absent-IsSized now key value c (one, size) =
      let kept = set-IsSized now key value c (one, size) in
      elim (Option-cases (lookup dec key c.order)) [
        | inl h ↦ ground (arith, h, kept)
        | inr (w, h) ↦
            let front = length-to_front key w w c.order h in
            ground (arith, h, one, size, front, kept)
      ]

  delete_if-IsSized :
      (key : K) (match : V → Bool) (c : Lru K V) → IsSized c → IsSized (delete_if dec key match c).0
  unfolding delete_if
  delete_if-IsSized key match c (one, size) = elim (Option-cases (lookup dec key c.order)) [
    | inl h ↦ ground (arith, h, one, size)
    | inr (w, h) ↦ ground (arith, h, one, size, length-delete-le dec key c.order)
  ]

  Reach-IsSized : {c : Lru K V} → Reach c → IsSized c
  unfolding new_lru
  Reach-IsSized (fresh max_entries ttl c h) = ground (arith, h)
  Reach-IsSized (got {c = c} now key r) = get-IsSized now key c (Reach-IsSized r)
  Reach-IsSized (stored {c = c} now key value r) = set-IsSized now key value c (Reach-IsSized r)
  Reach-IsSized (stored_if_absent {c = c} now key value r) =
      set_if_absent-IsSized now key value c (Reach-IsSized r)
  Reach-IsSized (deleted {c = c} key match r) = delete_if-IsSized key match c (Reach-IsSized r)

  -- Whatever calls have come, a cache never holds more entries than it was made for.
  pub Reach-length : (c : Lru K V) → Reach c → length c.order ≤ c.max_entries
  Reach-length c r = (Reach-IsSized r).1

  lookup-head :
      (key : K) (e : Entry V) (order : List (K × Entry V))
      → lookup dec key ((key, e) ∷ order) ≡ some e
  unfolding lookup
  lookup-head key e order = ground arith

  -- The entry that is pushed is not the one that goes.
  lookup-pushed :
      (n : ℕ) (key : K) (e : Entry V) (order : List (K × Entry V))
      → 1 ≤ n
      → lookup dec key (
          if ltb n (length ((key, e) ∷ order))
          then drop_last ((key, e) ∷ order)
          else (key, e) ∷ order)
        ≡ some e
  lookup-pushed n key e [] one = ground (arith, one, lookup-head key e [])
  lookup-pushed n key e (x ∷ xs) one =
      if_both (λ o. lookup dec key o ≡ some e) (ltb n (length ((key, e) ∷ x ∷ xs))) _ _
        (lookup-head key e (drop_last (x ∷ xs))) (lookup-head key e (x ∷ xs))

  set-lookup :
      (now : Time) (key : K) (value : V) (c : Lru K V)
      → 1 ≤ c.max_entries
      → lookup dec key (set dec now key value c).order
        ≡ some (record { value = value; stored_at = now })
  unfolding set
  set-lookup now key value c one =
      let e : Entry V = record { value = value; stored_at = now } in
      if_both (λ o. lookup dec key o ≡ some e) (is_some (lookup dec key c.order)) _ _
        (lookup-head key e (delete dec key c.order)) (lookup-pushed c.max_entries key e c.order one)

  -- A value that is stored in a cache is what a read of its key finds while no more than the time
  -- to live has passed, and later finds nothing; the fallback finds it by the age that it is given.
  pub get-set :
      (c : Lru K V) (now later : Time) (key : K) (value : V) (max_age : ℤ)
      → Reach c
      → let after = set dec now key value c in
        let e : Entry V = record { value = value; stored_at = now } in
        ((get dec later key after).1
          ≡ (if is_older_than dec c.ttl later e then none else some value))
        × (last_good_within dec later key max_age after
            ≡ (if is_older_than dec max_age later e then none else some value))
  unfolding get set last_good_within
  get-set c now later key value max_age r =
      let found = set-lookup now key value c (Reach-IsSized r).0 in
      (ground (arith, found), ground (arith, found))
