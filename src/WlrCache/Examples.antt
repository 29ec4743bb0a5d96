-- ===== src/WlrCache/Examples.antt =====
-- The WorkloadRecommendation of one Deployment, from its creation to its sweep.
use k8s_sustain.Prelude.{
  inr, ap, is_filled, ℕ, zero, suc, ◌+◌, ◌*◌, ◌≤◌, ◌≡◌, ◌↔◌, refl, true, false, Option, none, some,
  List, [], ◌∷◌, All, String, String-discrete, Distinct, lookup, arith, if◌then◌else◌,
}
use k8s_sustain.Prelude.Int.{pos, ◌*ℤ◌, int64}
use k8s_sustain.Prelude.Time.{sub, add, rfc3339_copy, before, second, minute, hour}
use k8s_sustain.Units.Model.{Amount, Fixed, amounts, amounts_order}
use k8s_sustain.Api.{ContainerRecommendation}
use k8s_sustain.WlrCache.{
  Object, Lifetimes, computed, default_retention, staleness_budget, servable_until, stamp,
  status_equivalent, same_text,
}
use k8s_sustain.WlrCache.Client.{Client, answer, refused, conflict, not_found, ok}
use k8s_sustain.WlrCache.Reading.{read, injects, held, fresh, stale}
use k8s_sustain.WlrCache.ReadLaws
use k8s_sustain.WlrCache.ReadLaws.{Served}
use k8s_sustain.WlrCache.Writing.{Decision, no_status, desired_status}
use k8s_sustain.WlrCache.Handlers.{record_decision}
use k8s_sustain.WlrCache.Deleting.{release, expired, departed_identity}
use k8s_sustain.WlrCache.RecordLaws
use k8s_sustain.WlrCache.History
use k8s_sustain.WlrCache.History.{Reach, created, recorded}
use k8s_sustain.WlrCache.Retention
use k8s_sustain.WlrCache.Stamps.{stored}
use k8s_sustain.WlrCache.Unchanged
use k8s_sustain.WlrCache.DeletionLaws
use k8s_sustain.WlrCache.DeletionLaws.{delete_all, filtered, count_gone, gone}

abbrev Stored : Type 0
Stored = Object Fixed Amount

abbrev first : Stored
first = record {
  namespace = "shop";
  name = "deployment-cart";
  policy_label = "default";
  stub_label = "";
  created = 100 * hour;
  uid = "u1";
  resource_version = "1";
  ref = record { kind = "Deployment"; namespace = "shop"; name = "cart" };
  policy = "default";
  status = no_status;
}

abbrev cart_rec : ContainerRecommendation Amount
cart_rec = record {
  cpu_request = none;
  memory_request = some (134_217_728_000_000_000, k8s_sustain.Units.binary_si);
  cpu_limit = none;
  memory_limit = none;
  remove_cpu_limit = true;
  remove_memory_limit = false;
}

abbrev decision : Decision Fixed Amount
decision = record {
  outcome = computed;
  recs = ("app", cart_rec) ∷ [];
  traces = [];
  departed = false;
}

abbrev lifetimes : Lifetimes
lifetimes = record { reconcile_interval = pos (5 * minute); retention = pos default_retention }

abbrev now : ℕ
now = 101 * hour

unfoldable computed_object : Stored
unfolding desired_status status_equivalent stamp sub add rfc3339_copy ◌*ℤ◌ int64
computed_object = record first { status = desired_status lifetimes first decision now }

served_now : injects (read (some computed_object) "default" now).verdict ≡ true
unfolding computed_object read injects String-discrete
served_now = refl

stale_later : (read (some computed_object) "default" (now + 30 * minute)).verdict ≡ stale
unfolding computed_object read String-discrete
stale_later = refl

read-injects_example :
    let r = read (some computed_object) "default" now in
    ((injects r.verdict ≡ true) ↔ Served (some computed_object) "default" now)
    × (r.recs ≡ (if injects r.verdict then held (some computed_object) "default" else none))
read-injects_example = ReadLaws.read-injects (some computed_object) "default" now

budget : staleness_budget lifetimes ≡ pos (30 * minute)
unfolding staleness_budget ◌*ℤ◌ int64
budget = refl

desired_status-read_example :
    let s = desired_status lifetimes first decision now in
    ((read (some (record first { status = s })) "default" (now + 10 * minute)).verdict
      ≡ (if before (now + 10 * minute) s.servable_until then fresh else stale))
    × (now + 20 * minute ≤ s.servable_until + 2 * second)
    × (s.servable_until ≤ now + 30 * minute)
desired_status-read_example =
    RecordLaws.desired_status-read lifetimes first decision now (now + 10 * minute) (30 * minute)
      refl refl refl (omega arith) (omega arith) budget

computed-Reach : Reach first computed_object (some ("default", ("app", cart_rec) ∷ []))
unfolding computed_object desired_status String-discrete
computed-Reach =
    recorded first lifetimes decision now computed_object.status refl refl
      (inr (λ e. cc (ap is_filled e), refl), inr (λ e. cc (ap (λ t. same_text t "") e), refl))
      created

Reach-read_example :
    (recs : List (String × ContainerRecommendation Amount)) × (◌≡◌
      {A = Option (String × List (String × ContainerRecommendation Amount))}
      (some ("default", ("app", cart_rec) ∷ []))
      (some ("default", recs)))
    × ((read (some computed_object) "default" now).recs ≡ some recs)
Reach-read_example =
    History.Reach-read first computed_object (some ("default", ("app", cart_rec) ∷ [])) "default"
      now refl computed-Reach served_now

departed_decision : Decision Fixed Amount
departed_decision = record decision { departed = true }

unfoldable departed_object : Stored
unfolding departed_decision desired_status status_equivalent stamp sub add rfc3339_copy ◌*ℤ◌ int64
departed_object = record first { status = desired_status lifetimes first departed_decision now }

departed-expired :
    expired departed_object "default" departed_identity (now + 200 * hour) lifetimes ≡ true
unfolding expired departed_object String-discrete
departed-expired = refl

departed-stamped :
    departed_object.status.servable_until
    ≡ servable_until lifetimes departed_object.created departed_object.status
unfolding departed_object servable_until
departed-stamped = refl

expired-read_example :
    injects (read (some departed_object) "default" (now + 201 * hour)).verdict ≡ false
unfolding departed_object
expired-read_example =
    Retention.expired-read lifetimes departed_object "default" departed_identity (now + 200 * hour)
      (now + 201 * hour) default_retention refl (omega arith) refl departed-stamped (λ e. cc)
      departed-expired (omega arith)

-- An API on which the first deletion meets an object rewritten since, and the second succeeds.
abbrev api : Client ℕ Fixed Amount
api = record {
  get = λ k s. (s, refused not_found);
  list = λ label s. (s, answer (first ∷ record first { policy = "other" } ∷ first ∷ []));
  list_policies = λ s. (s, answer ("default" ∷ []));
  create = λ o s. (suc s, answer o);
  patch = λ o known s. (suc s, answer o);
  patch_status = λ o known s. (suc s, answer o);
  delete = λ o s. (suc s, elim s [ zero ↦ refused conflict | suc n ↦ answer tt ]);
}

maps : Unchanged.AreMaps amounts_order first decision
unfolding Distinct lookup
maps = (tt, tt, (refl, tt))

record_decision-again_example :
    record_decision api
      (some (record first { status = stored (desired_status lifetimes first decision now) }))
      decision
      (now + 5 * minute)
      lifetimes
      7
    ≡ (7, ok tt)
unfolding desired_status status_equivalent sub rfc3339_copy String-discrete
record_decision-again_example =
    Unchanged.record_decision-again amounts_order api lifetimes first decision now
      (now + 5 * minute) 7 refl maps (λ _. refl)

release-delete_all_example :
    let all =
      delete_all api
        (filtered
          (λ o. same_text o.policy "default")
          (first ∷ record first { policy = "other" } ∷ first ∷ []))
        0 in
    ((release api "default" 0).0 ≡ all.0)
    × ((release api "default" 0).1.0 ≡ count_gone all.1)
    × (((release api "default" 0).1.1 ≡ none) ↔ All (λ r. gone r ≡ true) all.1)
release-delete_all_example =
    DeletionLaws.release-delete_all api "default" 0
      (first ∷ record first { policy = "other" } ∷ first ∷ []) refl
