-- ===== src/Workload/InjectLaws.antt =====
-- What applying a Recommendation makes of a container's resources (internal/workload/inject.go).
use k8s_sustain.Prelude.{
  ◌≡◌, refl, Bool, true, false, not, Option, none, some, List, lookup, lookup-insert_self,
  lookup-insert_ne, lookup-delete_self, lookup-delete_ne, arith, ◌≢◌, if◌then◌else◌, [],
}
use k8s_sustain.Units.{Quantities, same}
use k8s_sustain.Api.{
  ResourceKind, cpu, memory, ResourceKind-discrete, ResourceList, ResourceRequirements,
  ContainerRecommendation,
}
use k8s_sustain.Workload.Inject.{
  or_zero, set_quantity, apply_limit, exceeds, raise_limit, written, apply_to, value_in,
}

module _ {Q : Type 0} ⦃qu : Quantities Q⦄ where
  -- One resource of a container on its own: what it requests, and its limit.
  abbrev pub set_one : Option Q → Option Q → Option Q
  set_one cur none = cur
  set_one cur (some q) = if same (or_zero cur) q then cur else some q

  abbrev pub limit_one : Option Q → Option Q → Bool → Option Q
  limit_one cur q remove = if not remove then set_one cur q else none

  abbrev pub guard_one : Option Q → Option Q → Option Q
  guard_one req limit = if exceeds req limit then some (or_zero req) else limit

  -- What the Recommendation says of a resource.
  abbrev pub request_for : ContainerRecommendation Q → ResourceKind → Option Q
  request_for rec cpu = rec.cpu_request
  request_for rec memory = rec.memory_request

  abbrev pub limit_for : ContainerRecommendation Q → ResourceKind → Option Q
  limit_for rec cpu = rec.cpu_limit
  limit_for rec memory = rec.memory_limit

  abbrev pub removes_for : ContainerRecommendation Q → ResourceKind → Bool
  removes_for rec cpu = rec.remove_cpu_limit
  removes_for rec memory = rec.remove_memory_limit

  abbrev at : ResourceList Q → ResourceKind → Option Q
  at list name = lookup ResourceKind-discrete name list

  set_quantity_self :
      (list : ResourceList Q) (k : ResourceKind) (q : Option Q)
      → at (set_quantity list k q) k ≡ set_one (at list k) q
  unfolding set_quantity
  set_quantity_self list k none = refl
  set_quantity_self list k (some q) =
      ground (arith, lookup-insert_self ResourceKind-discrete k q list)

  set_quantity-other :
      (list : ResourceList Q) (k j : ResourceKind) (q : Option Q)
      → j ≢ k
      → at (set_quantity list k q) j ≡ at list j
  unfolding set_quantity
  set_quantity-other list k j none h = refl
  set_quantity-other list k j (some q) h =
      ground (arith, lookup-insert_ne ResourceKind-discrete k j q list h)

  apply_limit_self :
      (list : ResourceList Q) (k : ResourceKind) (q : Option Q) (remove : Bool)
      → at (apply_limit list k q remove) k ≡ limit_one (at list k) q remove
  unfolding apply_limit
  apply_limit_self list k q true = lookup-delete_self ResourceKind-discrete k list
  apply_limit_self list k q false = set_quantity_self list k q

  apply_limit-other :
      (list : ResourceList Q) (k j : ResourceKind) (q : Option Q) (remove : Bool)
      → j ≢ k
      → at (apply_limit list k q remove) j ≡ at list j
  unfolding apply_limit
  apply_limit-other list k j q true h = lookup-delete_ne ResourceKind-discrete k j list h
  apply_limit-other list k j q false h = set_quantity-other list k j q h

  -- The writes, resource by resource.
  written-at :
      (k : ResourceKind) (current : ResourceRequirements Q) (rec : ContainerRecommendation Q)
      → (at (written current rec).requests k ≡ set_one (at current.requests k) (request_for rec k))
        × (at (written current rec).limits k
            ≡ limit_one (at current.limits k) (limit_for rec k) (removes_for rec k))
  unfolding written
  written-at cpu current rec = ground (
    arith,
    set_quantity_self current.requests cpu rec.cpu_request,
    set_quantity-other (set_quantity current.requests cpu rec.cpu_request) memory cpu
        rec.memory_request (λ e. cc),
    apply_limit_self current.limits cpu rec.cpu_limit rec.remove_cpu_limit,
    apply_limit-other (apply_limit current.limits cpu rec.cpu_limit rec.remove_cpu_limit) memory cpu
        rec.memory_limit rec.remove_memory_limit (λ e. cc),
  )
  written-at memory current rec = ground (
    arith,
    set_quantity_self (set_quantity current.requests cpu rec.cpu_request) memory rec.memory_request,
    set_quantity-other current.requests cpu memory rec.cpu_request (λ e. cc),
    apply_limit_self (apply_limit current.limits cpu rec.cpu_limit rec.remove_cpu_limit) memory
        rec.memory_limit rec.remove_memory_limit,
    apply_limit-other current.limits cpu memory rec.cpu_limit rec.remove_cpu_limit (λ e. cc),
  )

  raise_limit_self :
      (k : ResourceKind) (out : ResourceRequirements Q) (raised : List ResourceKind)
      → let r = (raise_limit k (out, raised)).0 in
        (r.requests ≡ out.requests)
        × (at r.limits k ≡ guard_one (at out.requests k) (at out.limits k))
  unfolding raise_limit
  raise_limit_self k out raised =
      ground
        (arith, lookup-insert_self ResourceKind-discrete k (value_in out.requests k) out.limits)

  raise_limit-other :
      (k j : ResourceKind) (out : ResourceRequirements Q) (raised : List ResourceKind)
      → j ≢ k
      → at (raise_limit k (out, raised)).0.limits j ≡ at out.limits j
  unfolding raise_limit
  raise_limit-other k j out raised h =
      ground
        (arith, lookup-insert_ne ResourceKind-discrete k j (value_in out.requests k) out.limits h)

  -- What a container ends up with: each resource is written on its own, and its limit raised to
  -- its request where that exceeds it.
  pub apply_to-lookup :
      (k : ResourceKind) (current : ResourceRequirements Q) (rec : ContainerRecommendation Q)
      → let out = (apply_to current rec).0 in
        let req = set_one (lookup ResourceKind-discrete k current.requests) (request_for rec k) in
        let limit =
          limit_one
            (lookup ResourceKind-discrete k current.limits)
            (limit_for rec k)
            (removes_for rec k) in
        (lookup ResourceKind-discrete k out.requests ≡ req)
        × (lookup ResourceKind-discrete k out.limits ≡ guard_one req limit)
  unfolding apply_to
  apply_to-lookup cpu current rec =
      let w = written current rec in
      let once = raise_limit cpu (w, []) in
      ground (
        arith,
        written-at cpu current rec,
        raise_limit_self cpu w [],
        raise_limit_self memory once.0 once.1,
        raise_limit-other memory cpu once.0 once.1 (λ e. cc),
      )
  apply_to-lookup memory current rec =
      let w = written current rec in
      let once = raise_limit cpu (w, []) in
      ground (
        arith,
        written-at memory current rec,
        raise_limit_self cpu w [],
        raise_limit_self memory once.0 once.1,
        raise_limit-other cpu memory w [] (λ e. cc),
      )
