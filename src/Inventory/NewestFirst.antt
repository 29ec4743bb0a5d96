-- ===== src/Inventory/NewestFirst.antt =====
-- The order in which internal/inventory/inventory.go takes members' containers: newest first.
use Prim.Native.Nat.{compare, Ordering}
use k8s_sustain.Prelude.{
  ℕ, ◌≤◌, ◌≡◌, refl, List, [], ◌∷◌, All, All-map, arith, insert_stable, sort_stable,
}
use k8s_sustain.Inventory.{Member}
use k8s_sustain.Inventory.Settling.{newest_first}

lt_le : (a b : ℕ) → compare a b ≡ Ordering.lt → a ≤ b
lt_le a b h = ground (arith, h)

module _ {Q : Type 0} where
  -- Each member was created no earlier than those after it.
  abbrev pub NewestFirst : List (Member Q) → Type 0
  NewestFirst [] = Unit {0}
  NewestFirst (m ∷ ms) = All (λ k. k.created ≤ m.created) ms × NewestFirst ms

  -- A member's place before another or after it.
  abbrev placed :
      Ordering → Member Q → Member Q → List (Member Q) → List (Member Q) → List (Member Q)
  placed o m b bs rest = elim o [ Ordering.lt ↦ b ∷ rest | _ ↦ m ∷ b ∷ bs ]

  placed-All :
      (P : Member Q → Type 0) (o : Ordering) (m b : Member Q) (bs rest : List (Member Q))
      → P m
      → P b
      → All P bs
      → All P rest
      → All P (placed o m b bs rest)
  placed-All P Ordering.lt m b bs rest p q qs rs = (q, rs)
  placed-All P Ordering.eq m b bs rest p q qs rs = (p, (q, qs))
  placed-All P Ordering.gt m b bs rest p q qs rs = (p, (q, qs))

  insert_stable-All :
      (P : Member Q → Type 0) (m : Member Q) (ms : List (Member Q))
      → P m
      → All P ms
      → All P (insert_stable newest_first m ms)
  unfolding insert_stable
  insert_stable-All P m [] p _ = (p, tt)
  insert_stable-All P m (b ∷ bs) p (q, qs) =
      placed-All P (compare m.created b.created) m b bs (insert_stable newest_first m bs) p q qs
        (insert_stable-All P m bs p qs)

  pub sort_stable-All :
      (P : Member Q → Type 0) (ms : List (Member Q))
      → All P ms
      → All P (sort_stable newest_first ms)
  unfolding sort_stable
  sort_stable-All P [] _ = tt
  sort_stable-All P (m ∷ ms) (p, ps) =
      insert_stable-All P m (sort_stable newest_first ms) p (sort_stable-All P ms ps)

  -- What holds of a sorted list holds of the list.
  members_of_placed :
      (P : Member Q → Type 0) (o : Ordering) (m b : Member Q) (bs rest : List (Member Q))
      → (All P rest → P m × All P bs)
      → All P (placed o m b bs rest)
      → P m × All P (b ∷ bs)
  members_of_placed P Ordering.lt m b bs rest f (q, rs) = let (p, qs) = f rs in (p, (q, qs))
  members_of_placed P Ordering.eq m b bs rest f h = h
  members_of_placed P Ordering.gt m b bs rest f h = h

  inserted_All :
      (P : Member Q → Type 0) (m : Member Q) (ms : List (Member Q))
      → All P (insert_stable newest_first m ms)
      → P m × All P ms
  unfolding insert_stable
  inserted_All P m [] h = h
  inserted_All P m (b ∷ bs) h =
      members_of_placed P (compare m.created b.created) m b bs (insert_stable newest_first m bs)
        (inserted_All P m bs) h

  pub sorted_All :
      (P : Member Q → Type 0) (ms : List (Member Q))
      → All P (sort_stable newest_first ms)
      → All P ms
  unfolding sort_stable
  sorted_All P [] _ = tt
  sorted_All P (m ∷ ms) h =
      let (p, ps) = inserted_All P m (sort_stable newest_first ms) h in (p, sorted_All P ms ps)

  placed-NewestFirst :
      (o : Ordering) (m b : Member Q) (bs : List (Member Q))
      → compare m.created b.created ≡ o
      → NewestFirst (b ∷ bs)
      → NewestFirst (insert_stable newest_first m bs)
      → NewestFirst (placed o m b bs (insert_stable newest_first m bs))
  placed-NewestFirst Ordering.lt m b bs e (first, rest) inserted = (
    insert_stable-All (λ k. k.created ≤ b.created) m bs (lt_le m.created b.created e) first,
    inserted,
  )
  placed-NewestFirst Ordering.eq m b bs e (first, rest) inserted =
      let le : b.created ≤ m.created = ground (arith, e) in
      ((le, All-map (λ k h. omega (arith, le, h)) bs first), (first, rest))
  placed-NewestFirst Ordering.gt m b bs e (first, rest) inserted =
      let le : b.created ≤ m.created = ground (arith, e) in
      ((le, All-map (λ k h. omega (arith, le, h)) bs first), (first, rest))

  insert_stable-NewestFirst :
      (m : Member Q) (ms : List (Member Q))
      → NewestFirst ms
      → NewestFirst (insert_stable newest_first m ms)
  unfolding insert_stable
  insert_stable-NewestFirst m [] _ = (tt, tt)
  insert_stable-NewestFirst m (b ∷ bs) h =
      placed-NewestFirst (compare m.created b.created) m b bs refl h
        (insert_stable-NewestFirst m bs h.1)

  pub sort_stable-NewestFirst : (ms : List (Member Q)) → NewestFirst (sort_stable newest_first ms)
  unfolding sort_stable
  sort_stable-NewestFirst [] = tt
  sort_stable-NewestFirst (m ∷ ms) =
      insert_stable-NewestFirst m (sort_stable newest_first ms) (sort_stable-NewestFirst ms)
