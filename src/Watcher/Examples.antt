-- ===== src/Watcher/Examples.antt =====
-- A pod of a Deployment whose only container was killed at a limit that a resize had lowered, with
-- a cache of at most two entries.
use k8s_sustain.Prelude.{
  ℕ, ◌*◌, ◌≡◌, refl, Bool, true, false, Option, none, some, [], ◌∷◌, String, arith, All, length,
  Distinct, lookup, map, String-discrete,
}
use k8s_sustain.Prelude.Int.{pos, ◌-ℤ◌, int64}
use k8s_sustain.Prelude.Time.{minute, second, sub}
use k8s_sustain.Units.{binary_si}
use k8s_sustain.Units.Model.{Amount, amounts}
use k8s_sustain.Api.{memory, ResourceKind-discrete}
use k8s_sustain.OomWatch.Cache.{
  Cache, new_cache_with_limit, already_resolved, record_kill, mark_resolved,
}
use k8s_sustain.OomWatch.Index.{indexed}
use k8s_sustain.OomWatch.Sound.{IsSound}
use k8s_sustain.Governance.{
  policy_annotation, ongoing, value_of, mode_for_kind, apply_owner_name_override,
}
use k8s_sustain.Governance.Consent.{GovernancePolicy, consent}
use k8s_sustain.Governance.Walk.{Reader, ok, err, decide}
use k8s_sustain.Watcher.{Pod, oom_kills}
use k8s_sustain.Watcher.Retrying
use k8s_sustain.Watcher.Retrying.{owner_retry_after}
use k8s_sustain.Watcher.Reconciling.{Watcher, found, reconcile, quiet, requeue_after}
use k8s_sustain.Watcher.Kills
use k8s_sustain.Watcher.Kills.{IsApplied, shown_count}
use k8s_sustain.Watcher.Sound
use k8s_sustain.Watcher.Sound.{IsAtomic, IsGoverned}

abbrev as_int64 : Amount → Option ℕ
as_int64 (n, _) = some n

abbrev cart : Pod Amount
cart = record {
  name = "cart-1";
  namespace = "shop";
  uid = "u1";
  labels = [];
  annotations = (policy_annotation, "default") ∷ [];
  has_controller = true;
  never_restarts = false;
  containers =
      record {
        name = "app";
        resources = record { requests = []; limits = (memory, (256, binary_si)) ∷ [] };
        restarts_always = false;
      }
      ∷ [];
  container_statuses =
      record {
        name = "app";
        state_terminated = none;
        last_terminated = some (record { reason = "OOMKilled"; finished_at = 1_000 });
        restart_count = 1;
        resources = some (record { requests = []; limits = (memory, (128, binary_si)) ∷ [] });
      }
      ∷ [];
}

abbrev default_policy : GovernancePolicy
default_policy = record {
  name = "default";
  namespaces = "shop" ∷ [];
  types = record {
    deployment = some ongoing;
    stateful_set = none;
    daemon_set = none;
    cron_job = none;
    job = none;
    argo_rollout = none;
    pod = none;
  };
  exclude_init_containers = false;
  recommend_only = false;
}

abbrev reader : Reader
reader = record {
  policies = ok (record {
    by_name =
        ("default", record { policy = default_policy; selector = none; is_invalid = false }) ∷ [];
    excluded = [];
  });
  pod_owner = ok ("Deployment", "cart");
  workload_annotations = λ ns kind name. ok [];
  namespace_annotations = λ ns. ok [];
}

abbrev watcher : Watcher
watcher = record {
  window = pos (10 * minute);
  now = 2_000;
  asked = λ k. 2_000;
  marked = λ k. 2_000;
  handled = true;
  wrap = λ e. e;
  is_owner_unresolved = λ e. true;
}

abbrev any_label : String → Bool
any_label v = true

unfoldable empty_cache : Cache
unfolding new_cache_with_limit
empty_cache = new_cache_with_limit (pos (30 * minute)) (pos 2)

empty_cache-IsSound : IsSound empty_cache
unfolding empty_cache Distinct indexed lookup
empty_cache-IsSound = record {
  some_room = omega arith;
  entries_fit = omega arith;
  resolved_fit = omega arith;
  entries_distinct = tt;
  resolved_distinct = tt;
  in_sync = λ q. refl;
}

-- The kill is told, with the limit that the kubelet had applied.
told_limit :
    map
      (λ e. e.1.oom_limit_bytes)
      (reconcile watcher as_int64 any_label reader (found cart) empty_cache).told
    ≡ 128 ∷ []
unfolding reconcile empty_cache oom_kills String-discrete already_resolved lookup decide value_of
    consent mode_for_kind apply_owner_name_override record_kill mark_resolved ResourceKind-discrete
told_limit = refl

abbrev unreadable : Reader
unreadable = record reader { pod_owner = err "timeout" }

-- Nothing is marked, and the pass asks for another in five seconds.
unresolved_owner :
    reconcile watcher as_int64 any_label unreadable (found cart) empty_cache
    ≡ quiet (requeue_after (pos (5 * second))) empty_cache
unfolding reconcile empty_cache oom_kills String-discrete already_resolved lookup decide value_of
    consent owner_retry_after ◌-ℤ◌ sub int64
unresolved_owner = refl

oom_kills-IsApplied_example :
    All (IsApplied as_int64 cart) (oom_kills as_int64 cart)
    × (length (oom_kills as_int64 cart) ≡ shown_count as_int64 cart cart.container_statuses)
oom_kills-IsApplied_example = Kills.oom_kills-IsApplied as_int64 cart (tt, tt)

reconcile-IsSound_example :
    IsSound (reconcile watcher as_int64 any_label reader (found cart) empty_cache).cache
reconcile-IsSound_example =
    Sound.reconcile-IsSound watcher as_int64 any_label reader (found cart) empty_cache
      empty_cache-IsSound

reconcile-IsAtomic_example :
    IsAtomic empty_cache (reconcile watcher as_int64 any_label unreadable (found cart) empty_cache)
reconcile-IsAtomic_example =
    Sound.reconcile-IsAtomic watcher as_int64 any_label unreadable (found cart) empty_cache

reconcile-IsGoverned_example :
    All
      (IsGoverned watcher as_int64 any_label reader (found cart))
      (reconcile watcher as_int64 any_label reader (found cart) empty_cache).told
reconcile-IsGoverned_example =
    Sound.reconcile-IsGoverned watcher as_int64 any_label reader (found cart) empty_cache
