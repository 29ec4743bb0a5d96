-- ===== src/Governance/Examples.antt =====
-- A pod whose Namespace opts it into a Policy.
use k8s_sustain.Prelude.{◌≡◌, Bool, true, none, some, false, [], ◌∷◌, String}
use k8s_sustain.Governance.{Texts, policy_annotation, ongoing}
use k8s_sustain.Governance.Consent.{Policies, GovernancePolicy}
use k8s_sustain.Governance.Walk.{Subject, a_pod, decide}
use k8s_sustain.Governance.Governed
use k8s_sustain.Governance.Governor.{policy_of, answering, governor}

abbrev any_label : String → Bool
any_label v = true

abbrev default_policy : GovernancePolicy
default_policy = record {
  name = "default";
  namespaces = "shop" ∷ [];
  types = record {
    deployment = some ongoing;
    stateful_set = none;
    daemon_set = none;
    cron_job = none;
    job = none;
    argo_rollout = none;
    pod = none;
  };
  exclude_init_containers = false;
  recommend_only = false;
}

abbrev policies : Policies
policies = record {
  by_name =
      ("default", record { policy = default_policy; selector = none; is_invalid = true })
      ∷ ("shop", record { policy = default_policy; selector = none; is_invalid = false })
      ∷ [];
  excluded = "kube-system" ∷ [];
}

abbrev cart_pod : Subject
cart_pod = record { namespace = "shop"; labels = []; annotations = []; origin = a_pod true }

abbrev shop : Texts
shop = (policy_annotation, "shop") ∷ []

decide-governor_example :
    policy_of (decide any_label cart_pod (answering policies ("Deployment", "cart") [] shop))
    ≡ governor any_label cart_pod policies ("Deployment", "cart") [] shop
decide-governor_example =
    Governed.decide-governor any_label cart_pod policies ("Deployment", "cart") [] shop
