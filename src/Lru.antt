-- ===== src/Lru.antt =====
-- internal/cache/lru.go: the LRU cache whose entries expire. The list of entries, most recently used
-- first, stands for `order` and for the map to its elements; the clock's instant is an argument.
pub mod Laws
mod Examples
use k8s_sustain.Prelude.{
  ℕ, Bool, true, false, ◌&&◌, not, Option, none, some, List, [], ◌∷◌, lookup, delete, length, ltb,
  is_some, if◌then◌else◌,
}
use k8s_sustain.Prelude.Int.{ℤ, ltb_ℤ}
use k8s_sustain.Prelude.Time.{Time, sub}

pub record Entry (V : Type 0) : Type 0 where
  pub value : V
  pub stored_at : Time

pub record Lru (K V : Type 0) : Type 0 where
  pub max_entries : ℕ
  pub ttl : ℤ
  pub order : List (K × Entry V)

-- `NewLRU`, which panics on fewer entries than one.
unfoldable pub new_lru : {K V : Type 0} → ℕ → ℤ → Option (Lru K V)
new_lru max_entries ttl =
    if ltb max_entries 1
    then none
    else some (record { max_entries = max_entries; ttl = ttl; order = [] })

abbrev pub drop_last : {A : Type 0} → List A → List A
drop_last [] = []
drop_last (x ∷ []) = []
drop_last (x ∷ y ∷ xs) = x ∷ drop_last (y ∷ xs)

module _ {K V : Type 0} (dec : Discrete K) where
  -- The element moved to the front, with what is stored in it.
  abbrev pub to_front : K → Entry V → List (K × Entry V) → List (K × Entry V)
  to_front key e order = (key, e) ∷ delete dec key order

  abbrev pub is_older_than : ℤ → Time → Entry V → Bool
  is_older_than age now e = ltb_ℤ age (sub now e.stored_at)

  abbrev value_if_fresh : ℤ → Time → Option (Entry V) → Option V
  value_if_fresh age now none = none
  value_if_fresh age now (some e) = if is_older_than age now e then none else some e.value

  unfoldable pub get : Time → K → Lru K V → Lru K V × Option V
  get now key c = elim (lookup dec key c.order) [
    | none ↦ (c, none)
    | some e ↦
        if◌then◌else◌ {A = Lru K V × Option V} (is_older_than c.ttl now e) (c, none)
          (record c { order = to_front key e c.order }, some e.value)
  ]

  unfoldable pub last_good_within : Time → K → ℤ → Lru K V → Option V
  last_good_within now key max_age c = value_if_fresh max_age now (lookup dec key c.order)

  abbrev pushed : K → Entry V → Lru K V → List (K × Entry V)
  pushed key e c =
      if ltb c.max_entries (length ((key, e) ∷ c.order))
      then drop_last ((key, e) ∷ c.order)
      else (key, e) ∷ c.order

  -- `setLocked`, and `Set`.
  unfoldable pub set : Time → K → V → Lru K V → Lru K V
  set now key value c =
      let e : Entry V = record { value = value; stored_at = now } in
      record c {
        order = if is_some (lookup dec key c.order) then to_front key e c.order else pushed key e c;
      }

  unfoldable pub set_if_absent : Time → K → V → Lru K V → Lru K V × Bool
  unfolding set
  set_if_absent now key value c = elim (lookup dec key c.order) [
    | none ↦ (set now key value c, true)
    | some e ↦
        if◌then◌else◌ {A = Lru K V × Bool} (is_older_than c.ttl now e) (set now key value c, true)
          (record c { order = to_front key e c.order }, false)
  ]

  unfoldable pub delete_if : K → (V → Bool) → Lru K V → Lru K V × Bool
  delete_if key match c = elim (lookup dec key c.order) [
    | none ↦ (c, false)
    | some e ↦
        if◌then◌else◌ {A = Lru K V × Bool} (match e.value)
          (record c { order = delete dec key c.order }, true) (c, false)
  ]
