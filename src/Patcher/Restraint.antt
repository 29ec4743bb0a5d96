-- ===== src/Patcher/Restraint.antt =====
-- What a pass leaves alone (internal/workload/apply.go): a dry run, a recommend-only member, and the
-- pods of a kind that nothing would recreate.
use k8s_sustain.Prelude.{
  ◌≡◌, refl, ap, Bool, true, false, ◌||◌, not, Option, none, some, List, String, is_some, is_filled,
  arith, if◌then◌else◌, Bool-cases, inl, inr, ◌⊎◌, String-discrete,
}
use k8s_sustain.Units.{Quantities}
use k8s_sustain.Api.{ContainerRecommendation}
use k8s_sustain.Workload.Inject.{inject}
use k8s_sustain.Patcher.Pods.{Pod}
use k8s_sustain.Patcher.Cluster.{Answer, Cluster, Patcher}
use k8s_sustain.Patcher.Gating.{Evict, evicting}
use k8s_sustain.Patcher.Changes.{ApplySettings, PodSet}
use k8s_sustain.Patcher.Recycling.{resize_in_place_only, resize_pod, while_live}
use k8s_sustain.Patcher.Members.{Member, Owners, Found, found, not_found}
use k8s_sustain.Patcher.Applying.{
  ApplyRule, ApplyResult, rule_in_place_only, in_place_only, apply_rules, apply_found,
  apply_by_rule, apply, idle_result, pods_of_member,
}

-- The cluster, but for how it answers resizes and evictions.
abbrev pub writing :
    {S L Q : Type 0}
    → (Pod Q → Pod Q → S → S × Answer (Pod Q))
    → Evict S Q
    → Cluster S L Q
    → Cluster S L Q
writing r e api = record api { resize = r; evict = e }

-- The kinds whose pods nothing recreates, or whose run an eviction would end.
abbrev pub IsKept : String → Type 0
IsKept kind = (kind ≡ "CronJob") ⊎ (kind ≡ "Job") ⊎ (kind ≡ "Pod")

IsKept-in_place_only : (kind : String) → IsKept kind → in_place_only kind ≡ true
unfolding in_place_only String-discrete
IsKept-in_place_only kind (inl e) = rw e refl
IsKept-in_place_only kind (inr (inl e)) = rw e refl
IsKept-in_place_only kind (inr (inr e)) = rw e refl

abbrev unless_idle : {S : Type 0} → Bool → S → S × ApplyResult → S × ApplyResult
unless_idle b s x = if b then (s, idle_result) else x

second : (a b c : Bool) → (not a || b) ≡ false → (b || c) ≡ true → c ≡ true
second a b c h k = ground (arith, h, k)

module _ {S R L Q : Type 0} ⦃qu : Quantities Q⦄ (api : Cluster S L Q) (own : Owners S R L Q)
    (e : Evict S Q) (p : Patcher) (settings : ApplySettings Q) where
  in_place_found :
      (recs : List (String × ContainerRecommendation Q)) (rule : ApplyRule) (s : S)
      (set : Found (PodSet L Q))
      → rule.in_place_only ≡ true
      → apply_found (evicting e api) own p rule recs settings (s, set)
        ≡ apply_found api own p rule recs settings (s, set)
  unfolding resize_in_place_only resize_pod while_live
  in_place_found recs rule s (not_found x) h = refl
  in_place_found recs rule s (found set) h = rw h refl

  in_place_by_rule :
      (recs : List (String × ContainerRecommendation Q)) (rule : Option ApplyRule) (m : Member R Q)
      (s : S)
      → rule_in_place_only rule ≡ true
      → apply_by_rule (evicting e api) own p rule m recs settings s
        ≡ apply_by_rule api own p rule m recs settings s
  unfolding pods_of_member
  in_place_by_rule recs none m s h = refl
  in_place_by_rule recs (some rule) m s h =
      in_place_found recs rule (pods_of_member api own rule.pods_of m s).0
        (pods_of_member api own rule.pods_of m s).1 h

  dry_found :
      (recs : List (String × ContainerRecommendation Q))
      (r : Pod Q → Pod Q → S → S × Answer (Pod Q)) (rule : ApplyRule) (s : S)
      (set : Found (PodSet L Q))
      → settings.dry_run ≡ true
      → apply_found (writing r e api) own p rule recs settings (s, set)
        ≡ apply_found api own p rule recs settings (s, set)
  dry_found recs r rule s (not_found x) h = refl
  dry_found recs r rule s (found set) h = rw h refl

  dry_by_rule :
      (recs : List (String × ContainerRecommendation Q))
      (r : Pod Q → Pod Q → S → S × Answer (Pod Q)) (rule : Option ApplyRule) (m : Member R Q)
      (s : S)
      → settings.dry_run ≡ true
      → apply_by_rule (writing r e api) own p rule m recs settings s
        ≡ apply_by_rule api own p rule m recs settings s
  unfolding pods_of_member
  dry_by_rule recs r none m s h = refl
  dry_by_rule recs r (some rule) m s h =
      dry_found recs r rule (pods_of_member api own rule.pods_of m s).0
        (pods_of_member api own rule.pods_of m s).1 h

  -- No pod of a CronJob, a Job or a bare-pod identity is ever asked to be evicted: however the
  -- cluster answers evictions, applying to a kind that is resized in place alone comes to the same.
  pub apply-in_place_only :
      (recs : List (String × ContainerRecommendation Q)) (m : Member R Q) (s : S)
      → IsKept m.kind
      → apply (evicting e api) own p m recs settings s ≡ apply api own p m recs settings s
  unfolding apply in_place_only
  apply-in_place_only recs m s h =
      let narrowed = (inject m.containers m.init_containers false recs).recs in
      ap (unless_idle (not (is_filled narrowed) || is_some settings.recommend_only) s)
        (in_place_by_rule narrowed (apply_rules m.kind) m s (IsKept-in_place_only m.kind h))

  -- A dry run touches no pod, and neither does a member that is recommend-only: however the cluster
  -- answers resizes and evictions, applying comes to the same.
  pub apply-read_only :
      (recs : List (String × ContainerRecommendation Q))
      (r : Pod Q → Pod Q → S → S × Answer (Pod Q)) (m : Member R Q) (s : S)
      → (is_some settings.recommend_only || settings.dry_run) ≡ true
      → apply (writing r e api) own p m recs settings s ≡ apply api own p m recs settings s
  unfolding apply
  apply-read_only recs r m s h =
      let narrowed = (inject m.containers m.init_containers false recs).recs in
      let stops = not (is_filled narrowed) || is_some settings.recommend_only in
      elim (Bool-cases stops) [
        | inl t ↦ rw t refl
        | inr t ↦ ap (unless_idle stops s) (
            dry_by_rule narrowed r (apply_rules m.kind) m s
              (second (is_filled narrowed) (is_some settings.recommend_only) settings.dry_run t h))
      ]
