-- ===== src/WlrCache/DeletionLaws.antt =====
-- What Sweep, Release and Reap delete (internal/wlrcache/delete.go), call by call.
use k8s_sustain.Prelude.{
  ℕ, ◌+◌, ◌≡◌, refl, sym, ap, ◌∙◌, ◌↔◌, Bool, true, false, Option, none, some, List, [], ◌∷◌, All,
  String, arith, if◌then◌else◌, Bool-cases, Option-cases, inl, inr,
}
use k8s_sustain.WlrCache.{Object, same_text}
use k8s_sustain.WlrCache.Client.{
  Client, not_found, already_exists, conflict, other, Reply, answer, refused, Failure,
}
use k8s_sustain.WlrCache.Deleting.{
  OnConflict, judge_next_time, fail_release, Deleted, count_deletion, delete_each, delete_where,
  release,
}

-- The object is gone: deleted now, or by another.
pub gone : Reply (Unit {0}) → Bool
gone (answer _) = true
gone (refused not_found) = true
gone (refused _) = false

-- What stands of a list.
pub filtered : {A : Type 0} → (A → Bool) → List A → List A
filtered p [] = []
filtered p (x ∷ xs) = let rest = filtered p xs in if p x then x ∷ rest else rest

module _ {S F Q : Type 0} (api : Client S F Q) where
  -- The deletion of each object of a list, once and in order: the state after them, and the replies.
  pub delete_all : List (Object F Q) → S → S × List (Reply (Unit {0}))
  delete_all [] s = (s, [])
  delete_all (o ∷ items) s =
      let (s', reply) = api.delete o s in
      let (s'', replies) = delete_all items s' in (s'', reply ∷ replies)

-- What the replies to a path's deletions come to.
tally : OnConflict → Deleted → List (Reply (Unit {0})) → Deleted
tally on done [] = done
tally on done (r ∷ cs) = tally on (count_deletion on r done) cs

pub count_gone : List (Reply (Unit {0})) → ℕ
count_gone [] = 0
count_gone (r ∷ cs) = (if gone r then 1 else 0) + count_gone cs

-- A failure stays the first one, and the count goes on.
count_deletion-fst :
    (on : OnConflict) (r : Reply (Unit {0})) (n : ℕ) (f : Option Failure)
    → (count_deletion on r (n, f)).0 ≡ (if gone r then 1 else 0) + n
unfolding count_deletion gone
count_deletion-fst on (answer _) n f = omega arith
count_deletion-fst on (refused not_found) n f = omega arith
count_deletion-fst on (refused already_exists) n f = omega arith
count_deletion-fst judge_next_time (refused conflict) n f = omega arith
count_deletion-fst fail_release (refused conflict) n f = omega arith
count_deletion-fst on (refused (other e)) n f = omega arith

count_deletion-some :
    (r : Reply (Unit {0})) (n : ℕ) (f : Failure)
    → (count_deletion fail_release r (n, some f)).1 ≡ some f
unfolding count_deletion
count_deletion-some (answer _) n f = refl
count_deletion-some (refused not_found) n f = refl
count_deletion-some (refused already_exists) n f = refl
count_deletion-some (refused conflict) n f = refl
count_deletion-some (refused (other e)) n f = refl

count_deletion-none :
    (r : Reply (Unit {0})) (n : ℕ)
    → ((count_deletion fail_release r (n, none)).1 ≡ none) ↔ (gone r ≡ true)
unfolding count_deletion gone
count_deletion-none (answer _) n = ground arith
count_deletion-none (refused not_found) n = ground arith
count_deletion-none (refused already_exists) n = ground arith
count_deletion-none (refused conflict) n = ground arith
count_deletion-none (refused (other e)) n = ground arith

tally-fst :
    (on : OnConflict) (n : ℕ) (f : Option Failure) (cs : List (Reply (Unit {0})))
    → (tally on (n, f) cs).0 ≡ n + count_gone cs
unfolding tally count_gone
tally-fst on n f [] = omega arith
tally-fst on n f (r ∷ cs) =
    let done = count_deletion on r (n, f) in
    omega (arith, tally-fst on done.0 done.1 cs, count_deletion-fst on r n f)

tally-some :
    (n : ℕ) (f : Failure) (cs : List (Reply (Unit {0})))
    → (tally fail_release (n, some f) cs).1 ≡ some f
unfolding tally
tally-some n f [] = refl
tally-some n f (r ∷ cs) =
    let m = (count_deletion fail_release r (n, some f)).0 in
    ap (λ g. (tally fail_release (m, g) cs).1) (count_deletion-some r n f) ∙ tally-some m f cs

tally-none :
    (n : ℕ) (cs : List (Reply (Unit {0})))
    → ((tally fail_release (n, none) cs).1 ≡ none) ↔ All (λ r. gone r ≡ true) cs
unfolding tally
tally-none n [] = (λ _. tt, λ _. refl)
tally-none n (r ∷ cs) =
    let m = (count_deletion fail_release r (n, none)).0 in
    elim (Option-cases (count_deletion fail_release r (n, none)).1) [
      | inl e ↦
          let fine = (count_deletion-none r n).0 e in
          let same = ap (λ g. (tally fail_release (m, g) cs).1) e in
          (λ h. (fine, (tally-none m cs).0 (sym same ∙ h)), λ h. same ∙ (tally-none m cs).1 h.1)
      | inr (f, e) ↦
          let same = ap (λ g. (tally fail_release (m, g) cs).1) e ∙ tally-some m f cs in
          (λ h. cc (same, h), λ h. cc (e, (count_deletion-none r n).1 h.0))
    ]

module _ {S F Q : Type 0} (api : Client S F Q) where
  -- What a path leaves and answers, from the deletions of the objects it judges expired.
  delete_each-delete_all :
      (on : OnConflict) (p : Object F Q → Bool) (items : List (Object F Q)) (done : Deleted) (s : S)
      → let all = delete_all api (filtered p items) s in
        ((delete_each api on p items done s).0 ≡ all.0)
        × ((delete_each api on p items done s).1 ≡ tally on done all.1)
  unfolding delete_each delete_all tally filtered
  delete_each-delete_all on p [] done s = (refl, refl)
  delete_each-delete_all on p (o ∷ items) done s =
      let next =
        delete_each-delete_all on p items (count_deletion on (api.delete o s).1 done)
          (api.delete o s).0 in
      let skip = delete_each-delete_all on p items done s in
      elim (Bool-cases (p o)) [
        | inl e ↦ rw (e, delete_each) next
        | inr e ↦ rw (e, delete_each) skip
      ]

  release-listed :
      (policy : String) (s : S) (items : List (Object F Q))
      → (api.list (some policy) s).1 ≡ answer items
      → release api policy s
        ≡ delete_each api fail_release
            (λ o. same_text o.policy policy)
            items
            (0, none)
            (api.list (some policy) s).0
  unfolding release
  release-listed policy s items listed = rw (listed, delete_where)

  -- A Release of a Policy's objects, as listed by its label, leaves what deleting exactly those that
  -- name the Policy leaves, once each and in order; it counts those that are gone by the replies, and
  -- reports no failure exactly when all of them are.
  pub release-delete_all :
      (policy : String) (s : S) (items : List (Object F Q))
      → (api.list (some policy) s).1 ≡ answer items
      → let all =
          delete_all api
            (filtered (λ o. same_text o.policy policy) items)
            (api.list (some policy) s).0 in
        ((release api policy s).0 ≡ all.0)
        × ((release api policy s).1.0 ≡ count_gone all.1)
        × (((release api policy s).1.1 ≡ none) ↔ All (λ r. gone r ≡ true) all.1)
  release-delete_all policy s items listed =
      let p : Object F Q → Bool = λ o. same_text o.policy policy in
      let s' = (api.list (some policy) s).0 in
      let released = release-listed policy s items listed in
      let (left, tallied) = delete_each-delete_all fail_release p items (0, none) s' in
      let replies = (delete_all api (filtered p items) s').1 in
      let counted = ap (λ d. d.1) released ∙ tallied in
      (
        ap (λ d. d.0) released ∙ left,
        omega (arith, ap (λ d. d.0) counted, tally-fst fail_release 0 none replies),
        rw counted (tally-none 0 replies),
      )
