-- ===== src/Patcher/Examples.antt =====
-- A cluster of two pods, and what the patcher makes of it.
use k8s_sustain.Prelude.{
  ◌+◌, ◌⊎◌, false, inr, ℕ, ◌+◌, ◌≤◌, ◌≡◌, refl, true, false, none, some, List, [], ◌∷◌, String,
  length, arith, lookup, insert, if◌then◌else◌,
}
use k8s_sustain.Prelude.Int.{pos, pos_part, ◌-ℤ◌}
use k8s_sustain.Units.{decimal_si, binary_si}
use k8s_sustain.Units.Model.{Amount, amounts}
use k8s_sustain.Api.{cpu, ResourceRequirements, ContainerRecommendation}
use k8s_sustain.WlrCache.{same_text}
use k8s_sustain.Patcher.Pods.{Pod, countable, running, pod_ready}
use k8s_sustain.Patcher.Ordering.{sort_pods_for_recycle}
use k8s_sustain.Patcher.Cluster.{
  granted, denied, is_too_many_requests, Cluster, Patcher, new_patcher, with_ready_timeout,
  with_ready_poll_interval,
}
use k8s_sustain.Patcher.Waiting.{wait_for_replacement}
use k8s_sustain.Patcher.Termination
use k8s_sustain.Patcher.Termination.{Clock, IsFinished, new_patcher-IsTimed}
use k8s_sustain.Patcher.Cautious
use k8s_sustain.Patcher.Cautious.{passing}
use k8s_sustain.Patcher.Gating
use k8s_sustain.Patcher.Gating.{Evict, evicting, permits}
use k8s_sustain.Patcher.Changes.{ApplySettings, PodSet, gate_of, new_changes}
use k8s_sustain.Patcher.Recycling.{recycle}
use k8s_sustain.Patcher.Bounds
use k8s_sustain.Patcher.Members.{Member, Owners}
use k8s_sustain.Patcher.Applying.{apply}
use k8s_sustain.Patcher.Restraint
use k8s_sustain.Patcher.Restraint.{writing}

-- The clock, and the pods that stand.
abbrev World : Type 0
World = ℕ × List (Pod Amount)

abbrev resources : ℕ → ResourceRequirements Amount
resources n = record { requests = (cpu, (n, decimal_si)) ∷ []; limits = [] }

abbrev pod_of : String → ℕ → String → Pod Amount
pod_of name n safe = record {
  name = name;
  namespace = "shop";
  uid = name;
  deleting = false;
  phase = running;
  annotations = ("cluster-autoscaler.kubernetes.io/safe-to-evict", safe) ∷ [];
  owners = [];
  containers = record { name = "app"; resources = resources n; restarts_always = false } ∷ [];
  init_containers = [];
  conditions = record { type = pod_ready; holds = true; reason = "" } ∷ [];
  container_statuses = [];
  init_container_statuses = [];
  ephemeral_container_statuses = [];
}

abbrev pods : List (Pod Amount)
pods = pod_of "web-1" 100_000_000 "true" ∷ pod_of "web-0" 100_000_000 "false" ∷ []

abbrev without : String → List (Pod Amount) → List (Pod Amount)
without name [] = []
without name (p ∷ ps) =
    let rest = without name ps in if same_text p.name name then rest else p ∷ rest

abbrev cluster : Cluster World (Unit {0}) Amount
cluster = record {
  view = record {
    list_pods = λ ns sel w. (w, granted w.1);
    context_error = λ w. (w, none);
    now = λ w. (w, w.0);
    pause = λ d w. ((w.0 + pos_part d, w.1), none);
  };
  resize = λ pod base w. (w, granted pod);
  evict = λ pod w. ((w.0, without pod.name w.1), granted tt);
}

abbrev world : World
world = (1_000_000_000, pods)

clock : Clock cluster.view
clock = record {
  time = λ w. w.0;
  now-time = λ w. refl;
  time-now = λ w. omega arith;
  time-list_pods = λ ns sel w. omega arith;
  time-pause = λ d w h. omega arith;
}

abbrev patcher : Patcher
patcher =
    new_patcher false
      (with_ready_timeout (pos 10_000_000_000) ∷ with_ready_poll_interval (pos 3_000_000_000) ∷ [])

abbrev recs : List (String × ContainerRecommendation Amount)
recs =
    (
      "app",
      record {
        cpu_request = some (250_000_000, decimal_si);
        memory_request = none;
        cpu_limit = none;
        memory_limit = none;
        remove_cpu_limit = false;
        remove_memory_limit = false;
      },
    )
    ∷ []

abbrev settings : ApplySettings Amount
settings = record {
  recommend_only = none;
  dry_run = false;
  tolerance = record {
    cpu_percent = pos 5;
    cpu_floor = (10_000_000, decimal_si);
    mem_percent = pos 5;
    mem_floor = (15_728_640_000_000_000, binary_si);
  };
  ignore_safe_to_evict = false;
}

abbrev set : PodSet (Unit {0}) Amount
set = record { pods = pods; namespace = "shop"; selector = some tt }

-- The stale pod that no annotation pins is evicted, and the other one left.
recycled : (recycle cluster patcher set recs settings world).1.0.evicted ≡ "web-1" ∷ []
unfolding recycle new_patcher lookup insert ◌-ℤ◌
recycled = refl

wait_for_replacement-IsFinished_example :
    IsFinished (wait_for_replacement cluster.view patcher "shop" (some tt) "web-1" "web-1" world).1
wait_for_replacement-IsFinished_example =
    Termination.wait_for_replacement-IsFinished cluster.view patcher clock "shop" (some tt) "web-1"
      "web-1" world (new_patcher-IsTimed false _)

-- Evictions answered otherwise, but for the pods that the gate lets through.
abbrev contrary : Evict World Amount
contrary pod w =
    if permits (gate_of (sort_pods_for_recycle pods) recs settings) pod
    then cluster.evict pod w
    else (w, denied is_too_many_requests)

recycle-permitted_example :
    recycle (evicting contrary cluster) patcher set recs settings world
    ≡ recycle cluster patcher set recs settings world
recycle-permitted_example =
    Gating.recycle-permitted cluster contrary patcher set recs settings world
      (λ pod w live allowed unsettled. rw allowed refl)

recycle-Bounded_example :
    let pass = (recycle cluster patcher set recs settings world).1.0 in
    let left =
      (passing cluster patcher set recs settings.tolerance
        (gate_of (sort_pods_for_recycle pods) recs settings)
        (sort_pods_for_recycle pods)
        new_changes
        []
        world).1.pods in
    (length left ≡ length pods)
    × (pass.pods.stale ≤ pass.pods.total)
    × ((pass.counted ≡ false) ⊎ (pass.pods.total ≡ Bounds.number_of countable left))
    × (Bounds.times "web-1" pass.resized + Bounds.times "web-1" pass.evicted
        ≤ Bounds.times "web-1" (Bounds.names left))
recycle-Bounded_example = Bounds.recycle-Bounded cluster patcher set recs settings world "web-1"

abbrev owners : Owners World (Unit {0}) (Unit {0}) Amount
owners = record {
  as_selector = λ raw. some tt;
  controller_of = λ refs. none;
  get_replica_set = λ ns name w. (w, granted []);
  list_jobs = λ ns w. (w, granted []);
  list_labelled = λ ns name w. (w, granted []);
}

abbrev member : String → Member (Unit {0}) Amount
member kind = record {
  kind = kind;
  object = record { type = kind; namespace = "shop"; name = "web"; uid = "u"; selector = some tt };
  pods = pods;
  containers = record { name = "app"; resources = resources 0; restarts_always = false } ∷ [];
  init_containers = [];
}

-- The cluster that refuses every eviction.
abbrev refusing : Evict World Amount
refusing pod w = (w, denied is_too_many_requests)

apply-in_place_only_example :
    apply (evicting refusing cluster) owners patcher (member "Pod") recs settings world
    ≡ apply cluster owners patcher (member "Pod") recs settings world
apply-in_place_only_example =
    Restraint.apply-in_place_only cluster owners refusing patcher settings recs (member "Pod") world
      (inr (inr refl))

abbrev dry : ApplySettings Amount
dry = record settings { dry_run = true }

apply-read_only_example :
    apply
      (writing (λ pod base w. (w, denied is_too_many_requests)) refusing cluster)
      owners
      patcher
      (member "Deployment")
      recs
      dry
      world
    ≡ apply cluster owners patcher (member "Deployment") recs dry world
apply-read_only_example =
    Restraint.apply-read_only cluster owners refusing patcher dry recs
      (λ pod base w. (w, denied is_too_many_requests)) (member "Deployment") world refl
