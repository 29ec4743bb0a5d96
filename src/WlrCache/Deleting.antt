-- ===== src/WlrCache/Deleting.antt =====
-- internal/wlrcache/delete.go: the deletions of Sweep, Release and Reap.
use k8s_sustain.Prelude.{
  ℕ, suc, ◌*◌, Bool, true, false, ◌&&◌, not, Option, none, some, List, [], ◌∷◌, String, any,
  if◌then◌else◌,
}
use k8s_sustain.Prelude.Int.{pos, ltb_ℤ}
use k8s_sustain.Prelude.Time.{Time, sub, minute}
use k8s_sustain.OomWatch.{Identity}
use k8s_sustain.WlrCache.{WorkloadReference, same_text, Object, Lifetimes, last_computed}
use k8s_sustain.WlrCache.Client.{
  Client, ApiError, not_found, conflict, Reply, answer, refused, Failure, listing, listing_policies,
  deleting,
}

pub data Standing : Type 0 where
  ungoverned governed departed_identity conflicted_identity : Standing

abbrev pub Standings : Type 0
Standings = Identity → Standing

abbrev pub sweep_grace : ℕ
sweep_grace = 10 * minute

abbrev pub identity_of : WorkloadReference → Identity
identity_of ref = (ref.namespace, (ref.kind, ref.name))

module _ {F Q : Type 0} where
  abbrev outlived : Object F Q → Time → Lifetimes → Bool
  outlived known at l =
      ltb_ℤ l.retention (sub at (last_computed known.created known.status.observed_at))

  abbrev expired_standing : Object F Q → Standing → Time → Lifetimes → Bool
  expired_standing known ungoverned at l = true
  expired_standing known governed at l = false
  expired_standing known departed_identity at l = outlived known at l
  expired_standing known conflicted_identity at l = outlived known at l

  unfoldable pub expired : Object F Q → String → Standing → Time → Lifetimes → Bool
  expired known policy s at l =
      if not (same_text known.policy policy)
      then false
      else if ltb_ℤ (sub at known.created) (pos sweep_grace)
      then false
      else expired_standing known s at l

pub data OnConflict : Type 0 where
  judge_next_time fail_release : OnConflict

-- How many were deleted, and the first failure.
abbrev pub Deleted : Type 0
Deleted = ℕ × Option Failure

abbrev first_failure : Option Failure → ApiError → Option Failure
first_failure none e = some (deleting e)
first_failure (some f) e = some f

unfoldable pub count_deletion : OnConflict → Reply (Unit {0}) → Deleted → Deleted
count_deletion on (answer _) (n, f) = (suc n, f)
count_deletion on (refused not_found) (n, f) = (suc n, f)
count_deletion judge_next_time (refused conflict) (n, f) = (n, f)
count_deletion fail_release (refused conflict) (n, f) = (n, first_failure f conflict)
count_deletion on (refused e) (n, f) = (n, first_failure f e)

module _ {S F Q : Type 0} (api : Client S F Q) where
  unfoldable pub delete_each :
      OnConflict → (Object F Q → Bool) → List (Object F Q) → Deleted → S → S × Deleted
  unfolding count_deletion
  delete_each on is_expired [] done s = (s, done)
  delete_each on is_expired (known ∷ items) done s =
      let called = api.delete known s in
      delete_each on is_expired items
        (if is_expired known then count_deletion on called.1 done else done)
        (if is_expired known then called.0 else s)

  unfoldable pub delete_where : OnConflict → Option String → (Object F Q → Bool) → S → S × Deleted
  unfolding delete_each
  delete_where on label is_expired s =
      let listed = api.list label s in
      elim listed.1 [
        | answer items ↦ delete_each on is_expired items (0, none) listed.0
        | refused e ↦ (listed.0, (0, some (listing e)))
      ]

  unfoldable pub sweep : String → Standings → Time → Lifetimes → S → S × Deleted
  unfolding delete_where expired
  sweep policy standing at l =
      delete_where judge_next_time (some policy)
        (λ known. expired known policy (standing (identity_of known.ref)) at l)

  unfoldable pub release : String → S → S × Deleted
  unfolding delete_where
  release policy = delete_where fail_release (some policy) (λ known. same_text known.policy policy)

  -- An object that names a Policy, and none that exists.
  abbrev pub is_orphan : List String → Object F Q → Bool
  is_orphan policies known =
      not (same_text known.policy "") && not (any (same_text known.policy) policies)

  unfoldable pub reap : S → S × Deleted
  unfolding delete_where
  reap s =
      let listed = api.list_policies s in
      elim listed.1 [
        | answer policies ↦ delete_where judge_next_time none (is_orphan policies) listed.0
        | refused e ↦ (listed.0, (0, some (listing_policies e)))
      ]
