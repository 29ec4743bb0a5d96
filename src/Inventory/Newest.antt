-- ===== src/Inventory/Newest.antt =====
-- Of the members that declare a container of one name, the newest gives an identity's
-- (internal/inventory/inventory.go).
use mathlib.Core.List.{Mem}
use mathlib.Core.Path.{subst}
use k8s_sustain.Prelude.{
  ◌∙◌, ◌≤◌, ◌≡◌, ◌⊎◌, inl, inr, refl, sym, Option, none, some, List, [], ◌∷◌, String, All, All-map,
  All-own, arith, Option-cases, sort_stable, length-sort_stable, is_filled, true,
}
use k8s_sustain.Api.{Container}
use k8s_sustain.Inventory.{Member, Identity}
use k8s_sustain.Inventory.Settling.{
  union_containers, newest_first, settle, contributors, contributed, agreed, member_policies,
  by_member_name, has_departed,
}
use k8s_sustain.Inventory.Whole.{same_emptiness}
use k8s_sustain.Inventory.Agreement.{of_some}
use k8s_sustain.Inventory.Union.{declared, declared_first, union_containers-first}
use k8s_sustain.Inventory.NewestFirst.{
  NewestFirst, sort_stable-All, sorted_All, sort_stable-NewestFirst,
}

module _ {Q : Type 0} where
  -- A container of a name that some member declares, where no member created later declares one; or
  -- none, where no member declares one.
  abbrev pub IsNewest :
      (of : Member Q → List (Container Q))
      → String
      → List (Member Q)
      → Option (Container Q)
      → Type 0
  IsNewest of name members none = All (λ k. declared name (of k) ≡ none) members
  IsNewest of name members (some c) =
      (m : Member Q) × Mem m members
      × (declared name (of m) ≡ some c)
      × All (λ k. (declared name (of k) ≡ none) ⊎ (k.created ≤ m.created)) members

  -- The same of the members left, all of them among others.
  abbrev FirstOf :
      (of : Member Q → List (Container Q))
      → String
      → List (Member Q)
      → List (Member Q)
      → Option (Container Q)
      → Type 0
  FirstOf of name members ms none = All (λ k. declared name (of k) ≡ none) ms
  FirstOf of name members ms (some c) =
      (m : Member Q) × Mem m members
      × (declared name (of m) ≡ some c)
      × All (λ k. (declared name (of k) ≡ none) ⊎ (k.created ≤ m.created)) ms

  later-FirstOf :
      (of : Member Q → List (Container Q)) (name : String) (members : List (Member Q))
      (m : Member Q) (ms : List (Member Q)) (o : Option (Container Q))
      → declared name (of m) ≡ none
      → FirstOf of name members ms o
      → FirstOf of name members (m ∷ ms) o
  later-FirstOf of name members m ms none e h = (e, h)
  later-FirstOf of name members m ms (some c) e (k, among, d, h) = (k, among, d, (inl e, h))

  declared_first-FirstOf :
      (of : Member Q → List (Container Q)) (name : String) (members ms : List (Member Q))
      → NewestFirst ms
      → All (λ k. Mem k members) ms
      → FirstOf of name members ms (declared_first of name ms)
  unfolding declared_first
  declared_first-FirstOf of name members [] _ _ = tt
  declared_first-FirstOf of name members (m ∷ ms) (first, rest) (among, all) =
      elim (Option-cases (declared name (of m))) [
        | inl e ↦
            rw (e, declared_first)
              (later-FirstOf of name members m ms (declared_first of name ms) e
                (declared_first-FirstOf of name members ms rest all))
        | inr (c, e) ↦
            rw (e, declared_first)
              (m, among, e, (inr (omega arith), All-map (λ k h. inr h) ms first))
      ]

  FirstOf-IsNewest :
      (of : Member Q → List (Container Q)) (name : String) (members : List (Member Q))
      (o : Option (Container Q))
      → FirstOf of name members (sort_stable newest_first members) o
      → IsNewest of name members o
  FirstOf-IsNewest of name members none h = sorted_All _ members h
  FirstOf-IsNewest of name members (some c) (m, among, d, h) = (m, among, d, sorted_All _ members h)

  declared_first-IsNewest :
      (of : Member Q → List (Container Q)) (name : String) (members : List (Member Q))
      → IsNewest of name members (declared_first of name (sort_stable newest_first members))
  declared_first-IsNewest of name members = FirstOf-IsNewest of name members _ (
      declared_first-FirstOf of name members (sort_stable newest_first members)
        (sort_stable-NewestFirst members) (sort_stable-All _ members (All-own members)))

  -- Under each name, the union of some members' containers, regular and init, has one that a member
  -- declares such that no member created later declares one of that name, and it has none exactly
  -- where no member declares one.
  pub union_containers-IsNewest :
      (members : List (Member Q)) (name : String)
      → let (containers, init_containers) = union_containers members in
        IsNewest (λ m. m.containers) name members (declared name containers)
        × IsNewest (λ m. m.init_containers) name members (declared name init_containers)
  union_containers-IsNewest members name =
      let (regular, init) = union_containers-first members name in
      (
        subst (IsNewest (λ m. m.containers) name members) (sym regular)
            (declared_first-IsNewest (λ m. m.containers) name members),
        subst (IsNewest (λ m. m.init_containers) name members) (sym init)
            (declared_first-IsNewest (λ m. m.init_containers) name members),
      )

module _ {F Q : Type 0} where
  -- What IsNewest says of both lists of containers that an identity has from some members.
  abbrev pub HasNewest : String → List (Member Q) → Identity F Q → Type 0
  HasNewest name members id =
      IsNewest (λ m. m.containers) name members (declared name id.containers)
      × IsNewest (λ m. m.init_containers) name members (declared name id.init_containers)

  contributed-HasNewest :
      (id : Identity F Q) (name : String)
      → HasNewest name (contributors (contributed id)) (contributed id)
  unfolding contributors
  contributed-HasNewest id name = union_containers-IsNewest (contributors id) name

  -- Under each name, a settled identity that has members has the container, regular or init, that one
  -- of its contributors declares, such that no contributor created later declares one of that name; it
  -- has none exactly where no contributor declares one.
  pub settle-HasNewest :
      (id settled : Identity F Q) (name : String)
      → is_filled id.members ≡ true
      → settle id ≡ some settled
      → HasNewest name (contributors settled) settled
  unfolding settle has_departed
  settle-HasNewest id settled name live h =
      let members = sort_stable by_member_name id.members in
      let same = same_emptiness members id.members (length-sort_stable by_member_name id.members) in
      let sorted : Identity F Q = record id { members = members } in
      let whole = contributed (agreed (member_policies members) sorted) in
      let e : settle id ≡ some whole = rw (same, live) refl in
      subst (λ x. HasNewest name (contributors x) x) (of_some whole settled (sym e ∙ h))
        (contributed-HasNewest (agreed (member_policies members) sorted) name)
