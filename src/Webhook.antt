-- ===== src/Webhook.antt =====
-- internal/webhook/decide.go: what admitting a pod does. The reads of a WorkloadRecommendation and
-- of governance are parameters; logs and metrics are left out.
pub mod Admitting
mod Examples
use k8s_sustain.Prelude.{
  Bool, true, false, not, Option, none, some, List, [], ◌∷◌, String, String-discrete, insert,
  lookup, is_filled, ◌||◌, if◌then◌else◌,
}
use k8s_sustain.Prelude.Time.{Time}
use k8s_sustain.Units.{Quantities}
use k8s_sustain.OomWatch.{Identity}
use k8s_sustain.Api.{cpu, memory, ResourceKind-discrete, Container, ContainerRecommendation}
use k8s_sustain.Workload.Inject.{ContainerWrite, inject}
use k8s_sustain.WlrCache.{Object, Observed, Snapshot}
use k8s_sustain.WlrCache.Reading.{Verdict, injects, read}
use k8s_sustain.WlrCache.Writing.{should_request}
use k8s_sustain.Governance.{Texts, Level, level_none, Refusal, UpdateMode}
use k8s_sustain.Governance.Consent.{GovernancePolicy}
use k8s_sustain.Governance.Walk.{Res, ok, err, Subject, a_pod, Reader, Decision}
use k8s_sustain.Governance.Walk

pub record Pod (Q : Type 0) : Type 0 where
  pub namespace : String
  pub labels : Texts
  pub annotations : Texts
  pub has_controller : Bool
  pub containers : List (Container Q)
  pub init_containers : List (Container Q)

pub data Reason : Type 0 where
  governance_failed recommendation_unreadable no_container_matches recommend_only : Reason
  at_recommendation injected : Reason
  -- the label of what refused: a refusal of governance, or a verdict
  ungoverned : Option Refusal → Reason
  not_injected : Verdict → Reason

pub record StubRequest (F Q : Type 0) : Type 0 where
  pub known : Option (Object F Q)
  pub identity : Identity
  pub policy : String
  pub observed : Snapshot Q

pub record Admission (F Q : Type 0) : Type 0 where
  pub reason : Reason
  pub identity : Identity
  pub opt_in : String
  pub level : Level
  pub policy : String
  pub mode : Option UpdateMode
  pub verdict : Option Verdict
  pub held : Option (List (String × ContainerRecommendation Q))
  pub recs : List (String × ContainerRecommendation Q)
  pub writes : List (ContainerWrite Q)
  pub stub : Option (StubRequest F Q)
  pub err : Option String

abbrev pub subject_of : {Q : Type 0} → Pod Q → Subject
subject_of pod = record {
  namespace = pod.namespace;
  labels = pod.labels;
  annotations = pod.annotations;
  origin = a_pod pod.has_controller;
}

module _ {Q : Type 0} where
  abbrev observed_of : Bool → Container Q → Observed Q
  observed_of init c = record {
    init = init;
    cpu_request = lookup ResourceKind-discrete cpu c.resources.requests;
    memory_request = lookup ResourceKind-discrete memory c.resources.requests;
    cpu_limit = lookup ResourceKind-discrete cpu c.resources.limits;
    memory_limit = lookup ResourceKind-discrete memory c.resources.limits;
  }

  unfoldable pub add_observed : Bool → List (Container Q) → Snapshot Q → Snapshot Q
  add_observed init [] out = out
  add_observed init (c ∷ cs) out =
      add_observed init cs (insert String-discrete c.name (observed_of init c) out)

  unfoldable pub build_observed_resources : List (Container Q) → List (Container Q) → Snapshot Q
  build_observed_resources containers init_containers =
      add_observed true init_containers (add_observed false containers [])

abbrev pub or_no_recs :
    {Q : Type 0}
    → Option (List (String × ContainerRecommendation Q))
    → List (String × ContainerRecommendation Q)
or_no_recs none = []
or_no_recs (some recs) = recs

-- `EffectiveRecommendOnly`
abbrev pub effective_recommend_only : GovernancePolicy → Bool → Bool
effective_recommend_only p global = global || p.recommend_only

module _ {F Q : Type 0} ⦃qu : Quantities Q⦄ where
  abbrev pub empty_admission : Reason → Admission F Q
  empty_admission reason = record {
    reason = reason;
    identity = ("", ("", ""));
    opt_in = "";
    level = level_none;
    policy = "";
    mode = none;
    verdict = none;
    held = none;
    recs = [];
    writes = [];
    stub = none;
    err = none;
  }

  -- The part of `decide` after a verdict that injects.
  unfoldable pub with_injection :
      Bool
      → GovernancePolicy
      → Pod Q
      → List (String × ContainerRecommendation Q)
      → Admission F Q
      → Admission F Q
  with_injection global policy pod recs a =
      let inj = inject pod.containers pod.init_containers policy.exclude_init_containers recs in
      if not (is_filled inj.recs)
      then record a { recs = inj.recs; reason = no_container_matches }
      else if effective_recommend_only policy global
      then record a { recs = inj.recs; reason = recommend_only }
      else if not (is_filled inj.writes)
      then record a { recs = inj.recs; reason = at_recommendation }
      else record a { recs = inj.recs; reason = injected; writes = inj.writes }

  -- The part after the object is read.
  unfoldable pub with_known :
      Bool → GovernancePolicy → Pod Q → Time → Option (Object F Q) → Admission F Q → Admission F Q
  unfolding with_injection
  with_known global policy pod now known a =
      let reading = read known policy.name now in
      let observed = build_observed_resources pod.containers pod.init_containers in
      let asked : Admission F Q = record a {
        verdict = some reading.verdict;
        held = reading.recs;
        stub =
            if should_request known policy.name observed
            then some (record {
              known = known;
              identity = a.identity;
              policy = policy.name;
              observed = observed;
            })
            else none;
      } in
      if not (injects reading.verdict)
      then record asked { reason = not_injected reading.verdict }
      else with_injection global policy pod (or_no_recs reading.recs) asked

  -- The parts after the object's read, and after governance has decided.
  unfoldable pub with_stored :
      Bool
      → GovernancePolicy
      → Pod Q
      → Time
      → Res (Option (Object F Q))
      → Admission F Q
      → Admission F Q
  with_stored global policy pod now (err e) a = record a {
    reason = recommendation_unreadable;
    err = some e;
  }
  with_stored global policy pod now (ok known) a = with_known global policy pod now known a

  unfoldable pub with_policy :
      Bool
      → (Identity → Res (Option (Object F Q)))
      → Pod Q
      → Time
      → Option GovernancePolicy
      → Option UpdateMode
      → Admission F Q
      → Admission F Q
  unfolding with_stored
  with_policy global stored pod now none mode a = a
  with_policy global stored pod now (some policy) mode a =
      with_stored global policy pod now (stored a.identity)
        (record a { policy = policy.name; mode = mode })

  abbrev pub decided_by : Decision → Admission F Q
  decided_by g = record (empty_admission (ungoverned g.refusal)) {
    identity = g.identity;
    opt_in = g.opt_in;
    level = g.level;
  }

  unfoldable pub admit_decided :
      Bool → (Identity → Res (Option (Object F Q))) → Pod Q → Time → Res Decision → Admission F Q
  unfolding with_policy
  admit_decided global stored pod now (err e) = record (empty_admission governance_failed) {
    err = some e;
  }
  admit_decided global stored pod now (ok g) =
      with_policy global stored pod now g.policy g.mode (decided_by g)

  unfoldable pub decide :
      (is_label_value : String → Bool)
      → Reader
      → (Identity → Res (Option (Object F Q)))
      → Bool
      → Pod Q
      → Time
      → Admission F Q
  unfolding admit_decided
  decide is_label_value r stored global pod now =
      admit_decided global stored pod now (Walk.decide is_label_value (subject_of pod) r)
