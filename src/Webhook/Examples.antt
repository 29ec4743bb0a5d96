-- ===== src/Webhook/Examples.antt =====
-- A pod of a Deployment that its Namespace opts into a Policy.
use k8s_sustain.Prelude.{
  ◌*◌, ◌≡◌, refl, Bool, true, false, none, some, Option, [], ◌∷◌, String, insert, lookup,
  String-discrete,
}
use k8s_sustain.Prelude.Time.{hour}
use k8s_sustain.OomWatch.{Identity}
use k8s_sustain.Units.{binary_si}
use k8s_sustain.Units.Model.{Amount, Fixed, amounts}
use k8s_sustain.Api.{ContainerRecommendation}
use k8s_sustain.Workload.Inject.{inject}
use k8s_sustain.WlrCache.{Object, computed}
use k8s_sustain.WlrCache.Reading.{read, injects}
use k8s_sustain.Governance.{
  policy_annotation, ongoing, value_of, mode_for_kind, apply_owner_name_override,
}
use k8s_sustain.Governance.Consent.{Policies, GovernancePolicy, consent, gate_refusal}
use k8s_sustain.Governance.Walk
use k8s_sustain.Governance.Walk.{Res, ok, Reader, Decision}
use k8s_sustain.Governance.Governor.{answering}
use k8s_sustain.Webhook.{Pod, subject_of, decide, with_known}
use k8s_sustain.Webhook.Admitting
use k8s_sustain.Webhook.Admitting.{IsInjected}

abbrev default_policy : GovernancePolicy
default_policy = record {
  name = "default";
  namespaces = [];
  types = record {
    deployment = some ongoing;
    stateful_set = none;
    daemon_set = none;
    cron_job = none;
    job = none;
    argo_rollout = none;
    pod = none;
  };
  exclude_init_containers = false;
  recommend_only = false;
}

abbrev policies : Policies
policies = record {
  by_name =
      ("default", record { policy = default_policy; selector = none; is_invalid = false }) ∷ [];
  excluded = [];
}

abbrev any_label : String → Bool
any_label v = true

abbrev reader : Reader
reader = answering policies ("Deployment", "cart") [] ((policy_annotation, "default") ∷ [])

abbrev cart_rec : ContainerRecommendation Amount
cart_rec = record {
  cpu_request = none;
  memory_request = some (134_217_728_000_000_000, binary_si);
  cpu_limit = none;
  memory_limit = none;
  remove_cpu_limit = false;
  remove_memory_limit = false;
}

abbrev cart : Object Fixed Amount
cart = record {
  namespace = "shop";
  name = "deployment-cart";
  policy_label = "default";
  stub_label = "";
  created = 100 * hour;
  uid = "u1";
  resource_version = "1";
  ref = record { kind = "Deployment"; namespace = "shop"; name = "cart" };
  policy = "default";
  status = record {
    observed_at = 100 * hour;
    outcome = computed;
    computed_by = "default";
    departed = false;
    servable_until = 101 * hour;
    containers = ("app", cart_rec) ∷ [];
    trace = [];
    observed_resources = [];
  };
}

abbrev cart_pod : Pod Amount
cart_pod = record {
  namespace = "shop";
  labels = [];
  annotations = [];
  has_controller = true;
  containers =
      record {
        name = "app";
        resources = record { requests = []; limits = [] };
        restarts_always = false;
      }
      ∷ [];
  init_containers = [];
}

abbrev stored : Identity → Res (Option (Object Fixed Amount))
stored id = ok (some cart)

decide-writes_example :
    (g : Decision) × (Walk.decide any_label (subject_of cart_pod) reader ≡ ok g)
    × IsInjected false stored cart_pod
        (100 * hour)
        g
        (decide any_label reader stored false cart_pod (100 * hour))
unfolding decide Walk.decide String-discrete value_of lookup gate_refusal consent mode_for_kind
    apply_owner_name_override with_known injects read inject insert
decide-writes_example =
    Admitting.decide-writes any_label reader stored false cart_pod (100 * hour) refl
