-- ===== src/Workload/Inject.antt =====
-- internal/workload/inject.go: the Recommendation narrowed to the containers of a pod or a pod
-- template, and what it sets on each. LogRaisedLimits is left out.
use k8s_sustain.Prelude.{
  ℕ, suc, Bool, true, false, ◌&&◌, not, Option, none, some, List, [], ◌∷◌, ◌++◌, String,
  String-discrete, lookup, insert, delete, if◌then◌else◌,
}
use k8s_sustain.Units.{Quantities, cmp, same}
use k8s_sustain.Api.{
  ResourceKind, cpu, memory, ResourceKind-discrete, ResourceList, ResourceRequirements, Container,
  ContainerRecommendation,
}
use Prim.Native.Nat.{Ordering}

pub record ContainerWrite (Q : Type 0) : Type 0 where
  pub name : String
  pub init : Bool
  pub index : ℕ
  pub resources : ResourceRequirements Q
  pub raised_limits : List ResourceKind

pub record Injection (Q : Type 0) : Type 0 where
  pub recs : List (String × ContainerRecommendation Q)
  pub writes : List (ContainerWrite Q)

module _ {Q : Type 0} ⦃qu : Quantities Q⦄ where
  abbrev pub greater : Q → Q → Bool
  greater p q = elim (cmp p q) [ Ordering.gt ↦ true | _ ↦ false ]

  -- The value of a key, zero where it is absent.
  abbrev pub or_zero : Option Q → Q
  or_zero none = qu.zero_quantity
  or_zero (some q) = q

  abbrev pub value_in : ResourceList Q → ResourceKind → Q
  value_in list name = or_zero (lookup ResourceKind-discrete name list)

  unfoldable pub set_quantity : ResourceList Q → ResourceKind → Option Q → ResourceList Q
  unfolding ResourceKind-discrete
  set_quantity list name none = list
  set_quantity list name (some q) =
      if same (value_in list name) q then list else insert ResourceKind-discrete name q list

  unfoldable pub apply_limit : ResourceList Q → ResourceKind → Option Q → Bool → ResourceList Q
  unfolding set_quantity
  apply_limit list name q remove =
      if not remove then set_quantity list name q else delete ResourceKind-discrete name list

  -- Whether both are set and the request exceeds the limit.
  abbrev pub exceeds : Option Q → Option Q → Bool
  exceeds (some req) (some limit) = greater req limit
  exceeds _ _ = false

  abbrev pub over_limit : ResourceRequirements Q → ResourceKind → Bool
  over_limit res name =
      exceeds (lookup ResourceKind-discrete name res.requests)
        (lookup ResourceKind-discrete name res.limits)

  -- The guard's turn for one resource, with the limits raised so far.
  unfoldable pub raise_limit :
      ResourceKind
      → ResourceRequirements Q × List ResourceKind
      → ResourceRequirements Q × List ResourceKind
  unfolding ResourceKind-discrete
  raise_limit name (out, raised) =
      if◌then◌else◌ {A = ResourceRequirements Q × List ResourceKind} (over_limit out name)
        (
          record out {
            limits = insert ResourceKind-discrete name (value_in out.requests name) out.limits;
          },
          raised ++ name ∷ [],
        )
        (out, raised)

  unfoldable pub requests_equal : ResourceRequirements Q → ResourceRequirements Q → Bool
  unfolding ResourceKind-discrete
  requests_equal a b =
      same (value_in a.requests cpu) (value_in b.requests cpu)
      && same (value_in a.requests memory) (value_in b.requests memory)

  unfoldable pub value_equal : ResourceRequirements Q → ResourceRequirements Q → Bool
  unfolding requests_equal
  value_equal a b =
      requests_equal a b
      && same (value_in a.limits cpu) (value_in b.limits cpu)
      && same (value_in a.limits memory) (value_in b.limits memory)

  -- The four writes of `applyTo`, before the guard.
  unfoldable pub written :
      ResourceRequirements Q → ContainerRecommendation Q → ResourceRequirements Q
  unfolding apply_limit
  written current rec = record {
    requests =
        set_quantity (set_quantity current.requests cpu rec.cpu_request) memory rec.memory_request;
    limits =
        apply_limit (apply_limit current.limits cpu rec.cpu_limit rec.remove_cpu_limit) memory
          rec.memory_limit rec.remove_memory_limit;
  }

  unfoldable pub apply_to :
      ResourceRequirements Q
      → ContainerRecommendation Q
      → ResourceRequirements Q × (List ResourceKind × Bool)
  unfolding written raise_limit value_equal
  apply_to current rec =
      let (out, raised) = raise_limit memory (raise_limit cpu (written current rec, [])) in
      (out, (raised, not (value_equal current out)))

  -- One container's turn of `add`.
  unfoldable pub add_container :
      Bool → ℕ → Container Q → Option (ContainerRecommendation Q) → Injection Q → Injection Q
  unfolding apply_to String-discrete
  add_container init i c none inj = inj
  add_container init i c (some rec) inj =
      let (res, (raised, changed)) = apply_to c.resources rec in
      let write : ContainerWrite Q = record {
        name = c.name;
        init = init;
        index = i;
        resources = res;
        raised_limits = raised;
      } in
      record {
        recs = insert String-discrete c.name rec inj.recs;
        writes = if changed then inj.writes ++ write ∷ [] else inj.writes;
      }

  unfoldable pub add_containers :
      Bool
      → List (String × ContainerRecommendation Q)
      → ℕ
      → List (Container Q)
      → Injection Q
      → Injection Q
  unfolding add_container
  add_containers init recs i [] inj = inj
  add_containers init recs i (c ∷ cs) inj =
      add_containers init recs (suc i) cs
        (add_container init i c (lookup String-discrete c.name recs) inj)

  unfoldable pub inject :
      List (Container Q)
      → List (Container Q)
      → Bool
      → List (String × ContainerRecommendation Q)
      → Injection Q
  unfolding add_containers
  inject containers init_containers exclude_init recs =
      let none_yet : Injection Q = record { recs = []; writes = [] } in
      let inj = add_containers false recs 0 containers none_yet in
      if not exclude_init then add_containers true recs 0 init_containers inj else inj
