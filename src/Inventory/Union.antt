-- ===== src/Inventory/Union.antt =====
-- The containers of an identity (internal/inventory/inventory.go): of those that several members
-- declare under a name, the newest member's.
use k8s_sustain.Prelude.{
  ◌≡◌, refl, ap, sym, ◌∙◌, Bool, true, Option, none, some, List, [], ◌∷◌, ◌++◌, String,
  String-discrete, lookup, insert, lookup-insert, is_some, arith, Option-cases, inl, inr,
  sort_stable,
}
use mathlib.Core.Logic.{ite}
use mathlib.Core.Path.{subst}
use k8s_sustain.Api.{Container}
use k8s_sustain.Inventory.{Member}
use k8s_sustain.Inventory.Settling.{append_unseen, union_of, union_containers, newest_first}

abbrev pub or_then : {A : Type 0} → Option A → Option A → Option A
or_then none o = o
or_then (some a) o = some a

or_then_assoc : {A : Type 0} (o p q : Option A) → or_then o (or_then p q) ≡ or_then (or_then o p) q
or_then_assoc none p q = refl
or_then_assoc (some a) p q = refl

or_then-none : {A : Type 0} (o : Option A) → or_then o none ≡ o
or_then-none none = refl
or_then-none (some a) = refl

or_then-filled : {A : Type 0} (o p q : Option A) → is_some o ≡ true → or_then o p ≡ or_then o q
or_then-filled none p q h = ground (arith, h)
or_then-filled (some a) p q h = refl

module _ {Q : Type 0} where
  -- The first container of a name.
  unfoldable pub declared : String → List (Container Q) → Option (Container Q)
  declared name [] = none
  declared name (c ∷ cs) =
      let rest = declared name cs in ite (String-discrete name c.name) (some c) rest

  -- The first member's, of those that declare one.
  unfoldable pub declared_first :
      (Member Q → List (Container Q)) → String → List (Member Q) → Option (Container Q)
  unfolding declared
  declared_first of name [] = none
  declared_first of name (m ∷ ms) = or_then (declared name (of m)) (declared_first of name ms)

  declared-append :
      (name : String) (cs ds : List (Container Q))
      → declared name (cs ++ ds) ≡ or_then (declared name cs) (declared name ds)
  unfolding declared
  declared-append name [] ds = refl
  declared-append name (c ∷ cs) ds = ground (arith, declared-append name cs ds)

  -- The names seen are those of the containers taken.
  abbrev Matches : List (Container Q) → List (String × Bool) → Type 0
  Matches dst seen =
      (name : String) → is_some (lookup String-discrete name seen) ≡ is_some (declared name dst)

  Matches-insert :
      (dst : List (Container Q)) (seen : List (String × Bool)) (c : Container Q)
      → Matches dst seen
      → Matches (dst ++ c ∷ []) (insert String-discrete c.name true seen)
  unfolding declared
  Matches-insert dst seen c h name = ground (
    arith,
    h name,
    lookup-insert String-discrete c.name name true seen,
    declared-append name dst (c ∷ []),
  )

  declared-next :
      (dst src : List (Container Q)) (c : Container Q) (name : String)
      → or_then (declared name (dst ++ c ∷ [])) (declared name src)
        ≡ or_then (declared name dst) (declared name (c ∷ src))
  unfolding declared
  declared-next dst src c name = ground (arith, declared-append name dst (c ∷ []))

  -- A container of a name that is taken already adds nothing.
  declared-again :
      (dst src : List (Container Q)) (c : Container Q) (name : String)
      → is_some (declared c.name dst) ≡ true
      → or_then (declared name dst) (declared name (c ∷ src))
        ≡ or_then (declared name dst) (declared name src)
  unfolding declared
  declared-again dst src c name h =
      elim (String-discrete name c.name)
        as (λ d.
          or_then (declared name dst) (ite d (some c) (declared name src))
          ≡ or_then (declared name dst) (declared name src)) [
            | no n ↦ refl
            | yes p ↦
                or_then-filled (declared name dst) (some c) (declared name src)
                  (subst (λ x. is_some (declared x dst) ≡ true) (sym p) h)
          ]

  append_unseen-declared :
      (dst src : List (Container Q)) (seen : List (String × Bool)) (name : String)
      → Matches dst seen
      → let (dst', seen') = append_unseen dst src seen in
        (declared name dst' ≡ or_then (declared name dst) (declared name src)) × Matches dst' seen'
  unfolding append_unseen declared
  append_unseen-declared dst [] seen name h = (sym (or_then-none (declared name dst)), h)
  append_unseen-declared dst (c ∷ src) seen name h =
      elim (Option-cases (lookup String-discrete c.name seen)) [
        | inl e ↦
            let (d, m) =
              append_unseen-declared (dst ++ c ∷ []) src (insert String-discrete c.name true seen)
                name (Matches-insert dst seen c h) in
            rw (e, append_unseen) (d ∙ declared-next dst src c name, m)
        | inr (t, e) ↦
            let (d, m) = append_unseen-declared dst src seen name h in
            rw (e, append_unseen)
              (d ∙ sym (declared-again dst src c name (sym (h c.name) ∙ ap is_some e)), m)
      ]

  union_of-declared :
      (of : Member Q → List (Container Q)) (ms : List (Member Q)) (dst : List (Container Q))
      (seen : List (String × Bool)) (name : String)
      → Matches dst seen
      → declared name (union_of of ms dst seen)
        ≡ or_then (declared name dst) (declared_first of name ms)
  unfolding union_of declared_first
  union_of-declared of [] dst seen name h = sym (or_then-none (declared name dst))
  union_of-declared of (m ∷ ms) dst seen name h =
      let (d, matches) = append_unseen-declared dst (of m) seen name h in
      let (dst', seen') = append_unseen dst (of m) seen in
      union_of-declared of ms dst' seen' name matches
      ∙ ap (λ o. or_then o (declared_first of name ms)) d
      ∙ sym (or_then_assoc (declared name dst) (declared name (of m)) (declared_first of name ms))

  pub union_containers-first :
      (members : List (Member Q)) (name : String)
      → let (containers, init_containers) = union_containers members in
        let newest = sort_stable newest_first members in
        (declared name containers ≡ declared_first (λ m. m.containers) name newest)
        × (declared name init_containers ≡ declared_first (λ m. m.init_containers) name newest)
  unfolding union_containers declared lookup
  union_containers-first members name =
      let newest = sort_stable newest_first members in
      (
        union_of-declared (λ m. m.containers) newest [] [] name (λ n. refl),
        union_of-declared (λ m. m.init_containers) newest [] [] name (λ n. refl),
      )
