-- ===== src/Inventory/Examples.antt =====
-- An identity of two members, and what settling makes of it.
use k8s_sustain.Prelude.{true, ◌≡◌, refl, false, none, some, [], ◌∷◌, String}
use k8s_sustain.Prelude.Time.{zero_time}
use k8s_sustain.Units.{decimal_si}
use k8s_sustain.Units.Model.{Amount, Fixed}
use k8s_sustain.Api.{cpu, Container}
use k8s_sustain.Prelude.{ℕ, List, lookup}
use k8s_sustain.Inventory.{Member, Identity}
use k8s_sustain.Inventory.Settling.{settle, contributors}
use k8s_sustain.Inventory.Agreement
use k8s_sustain.Inventory.Agreement.{IsAgreed}
use k8s_sustain.Governance.Walk.{ok}
use k8s_sustain.Inventory.Building.{Sources, Options, items}
use k8s_sustain.Inventory.Taking.{take}
use k8s_sustain.Inventory.Whole
use k8s_sustain.Inventory.Whole.{IsWhole}
use k8s_sustain.Inventory.Newest
use k8s_sustain.Inventory.Newest.{HasNewest}

abbrev container : String → ℕ → Container Amount
container name n = record {
  name = name;
  resources = record { requests = (cpu, (n, decimal_si)) ∷ []; limits = [] };
  restarts_always = false;
}

abbrev member : String → ℕ → String → Member Amount
member name created policy = record {
  name = name;
  created = created;
  policy = policy;
  containers = container "app" created ∷ [];
  init_containers = [];
}

abbrev members : List (Member Amount)
members = member "web-b" 200 "default" ∷ member "web-a" 100 "" ∷ []

abbrev found : Identity Fixed Amount
found = record {
  key = ("shop", ("Pod", "web"));
  members = members;
  containers = [];
  init_containers = [];
  since = zero_time;
  policy = "";
  conflicted = false;
  recommendation = none;
}

-- What is governed gives the containers and the age.
abbrev settled : Identity Fixed Amount
settled = record found {
  members = member "web-a" 100 "" ∷ member "web-b" 200 "default" ∷ [];
  containers = container "app" 200 ∷ [];
  since = 200;
  policy = "default";
}

found-settled : settle found ≡ some settled
unfolding settle lookup
found-settled = refl

settle-IsAgreed_example : IsAgreed settled
settle-IsAgreed_example = Agreement.settle-IsAgreed found settled refl refl refl found-settled

settle-HasNewest_example : HasNewest "app" (contributors settled) settled
settle-HasNewest_example = Newest.settle-HasNewest found settled "app" refl found-settled

-- One bare pod, which names its identity.
abbrev sources : Sources Fixed Amount
sources = record {
  policies = ok (record { by_name = []; excluded = [] });
  workloads = λ kind ns. items [];
  pods = λ ns. items (
      record {
        name = "debug";
        namespace = "shop";
        created = 100;
        labels = [];
        annotations = ("k8s.sustain.io/owner-name", "web") ∷ [];
        has_controller = false;
        containers = container "app" 100 ∷ [];
        init_containers = [];
      }
      ∷ []);
  recommendations = λ ns. items [];
  namespace_annotations = λ name. ok [];
}

abbrev everything : Options
everything = record { namespaces = []; kinds = [] }

take-IsWhole_example : IsWhole (take (λ v. true) sources everything 500)
take-IsWhole_example = Whole.take-IsWhole (λ v. true) sources everything 500
