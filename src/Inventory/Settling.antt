-- ===== src/Inventory/Settling.antt =====
-- internal/inventory/inventory.go: what the members of an identity decide together. A nil pointer
-- that is read panics in the source, and is none here.
use Prim.Native.Nat.{Ordering, compare as compare_ℕ}
use Prim.Native.String.{compare}
use k8s_sustain.Prelude.{
  Bool, true, false, ◌&&◌, ◌||◌, not, Option, none, some, List, [], ◌∷◌, ◌++◌, String,
  String-discrete, lookup, insert, sort_stable, if◌then◌else◌,
}
use k8s_sustain.Prelude.Time.{Time, zero_time, is_zero, before}
use k8s_sustain.Api.{ResourceKind, cpu, memory, ResourceKind-discrete, ResourceList, Container}
use k8s_sustain.WlrCache.{same_text, Observed, Snapshot, Object}
use k8s_sustain.Governance.Consent.{contains}
use k8s_sustain.Inventory.{Member, Identity, is_empty}

-- `dedupe`: the first of each.
unfoldable pub dedupe_onto : List String → List String → List String
unfolding String-discrete
dedupe_onto out [] = out
dedupe_onto out (ns ∷ namespaces) =
    dedupe_onto (if not (contains out ns) then out ++ ns ∷ [] else out) namespaces

unfoldable pub dedupe : List String → List String
unfolding dedupe_onto
dedupe namespaces = dedupe_onto [] namespaces

unfoldable pub earlier : Time → Time → Time
earlier a b = if is_zero b then a else if is_zero a || before b a then b else a

-- The containers not seen before, and the names seen.
unfoldable pub append_unseen :
    {Q : Type 0}
    → List (Container Q)
    → List (Container Q)
    → List (String × Bool)
    → List (Container Q) × List (String × Bool)
unfolding String-discrete
append_unseen dst [] seen = (dst, seen)
append_unseen dst (c ∷ src) seen = elim (lookup String-discrete c.name seen) [
  | some _ ↦ append_unseen dst src seen
  | none ↦ append_unseen (dst ++ c ∷ []) src (insert String-discrete c.name true seen)
]

module _ {Q : Type 0} where
  unfoldable pub members_where : (Member Q → Bool) → List (Member Q) → List (Member Q)
  members_where keep [] = []
  members_where keep (m ∷ ms) =
      let rest = members_where keep ms in if keep m then m ∷ rest else rest

  -- One member's turn of `MemberPolicies`.
  unfoldable pub with_policy_of : List String → Member Q → List String
  unfolding String-discrete
  with_policy_of out m =
      if not (same_text m.policy "") && not (contains out m.policy)
      then out ++ m.policy ∷ []
      else out

  -- The distinct Policies of the members, in the order met.
  unfoldable pub policies_onto : List (Member Q) → List String → List String
  unfolding with_policy_of
  policies_onto [] out = out
  policies_onto (m ∷ ms) out = policies_onto ms (with_policy_of out m)

  unfoldable pub member_policies : List (Member Q) → List String
  unfolding policies_onto sort_stable
  member_policies members = sort_stable compare (policies_onto members [])

  abbrev pub newest_first : Member Q → Member Q → Ordering
  newest_first a b = compare_ℕ b.created a.created

  abbrev pub by_member_name : Member Q → Member Q → Ordering
  by_member_name a b = compare a.name b.name

  -- The loop of `unionContainers`, for what `of` takes of a member.
  unfoldable pub union_of :
      (Member Q → List (Container Q))
      → List (Member Q)
      → List (Container Q)
      → List (String × Bool)
      → List (Container Q)
  unfolding append_unseen
  union_of of [] dst seen = dst
  union_of of (m ∷ ms) dst seen =
      let (dst', seen') = append_unseen dst (of m) seen in union_of of ms dst' seen'

  unfoldable pub union_containers : List (Member Q) → List (Container Q) × List (Container Q)
  unfolding union_of sort_stable
  union_containers members =
      let newest = sort_stable newest_first members in
      (union_of (λ m. m.containers) newest [] [], union_of (λ m. m.init_containers) newest [] [])

  unfoldable pub earliest : Time → List (Member Q) → Time
  unfolding earlier
  earliest since [] = since
  earliest since (m ∷ ms) = earliest (earlier since m.created) ms

  abbrev set_quantity : ResourceKind → Option Q → ResourceList Q → ResourceList Q
  set_quantity name none rl = rl
  set_quantity name (some q) rl = insert ResourceKind-discrete name q rl

  unfoldable pub container_from : String → Observed Q → Container Q
  unfolding ResourceKind-discrete
  container_from name o = record {
    name = name;
    resources = record {
      requests = set_quantity memory o.memory_request (set_quantity cpu o.cpu_request []);
      limits = set_quantity memory o.memory_limit (set_quantity cpu o.cpu_limit []);
    };
    restarts_always = false;
  }

  unfoldable pub from_observed : Bool → Snapshot Q → List (Container Q)
  unfolding container_from
  from_observed init [] = []
  from_observed init ((name, o) ∷ obs) =
      let rest = from_observed init obs in
      if o.init
      then (if init then container_from name o ∷ rest else rest)
      else if init
      then rest
      else container_from name o ∷ rest

  abbrev by_container_name : Container Q → Container Q → Ordering
  by_container_name a b = compare a.name b.name

  unfoldable pub containers_from_observed : Snapshot Q → List (Container Q) × List (Container Q)
  unfolding from_observed sort_stable
  containers_from_observed obs = (
    sort_stable by_container_name (from_observed false obs),
    sort_stable by_container_name (from_observed true obs),
  )

module _ {F Q : Type 0} where
  unfoldable pub has_departed : Identity F Q → Bool
  has_departed id = is_empty id.members

  unfoldable pub contributors : Identity F Q → List (Member Q)
  unfolding members_where String-discrete
  contributors id =
      if not (same_text id.policy "")
      then members_where (λ m. same_text m.policy id.policy) id.members
      else if id.conflicted
      then members_where (λ m. not (same_text m.policy "")) id.members
      else id.members

  abbrev pub created_or_zero : Option (Object F Q) → Time
  created_or_zero none = zero_time
  created_or_zero (some wlr) = wlr.created

  -- The Policy of the members, where they agree, or the conflict.
  abbrev pub agreed : List String → Identity F Q → Identity F Q
  agreed [] id = id
  agreed (p ∷ []) id = record id { policy = p }
  agreed (p ∷ q ∷ ps) id = record id { conflicted = true }

  -- What the contributors give.
  abbrev pub contributed : Identity F Q → Identity F Q
  contributed id =
      let cs = contributors id in
      let (containers, init_containers) = union_containers cs in
      record id {
        containers = containers;
        init_containers = init_containers;
        since = earliest (created_or_zero id.recommendation) cs;
      }

  abbrev pub departed_from : Identity F Q → Option (Object F Q) → Option (Identity F Q)
  departed_from id none = none
  departed_from id (some wlr) =
      let (containers, init_containers) = containers_from_observed wlr.status.observed_resources in
      some (record id {
        containers = containers;
        init_containers = init_containers;
        since = wlr.created;
      })

  unfoldable pub settle : Identity F Q → Option (Identity F Q)
  unfolding has_departed member_policies contributors union_containers earliest
      containers_from_observed sort_stable
  settle id =
      let sorted = record id { members = sort_stable by_member_name id.members } in
      if has_departed sorted
      then departed_from sorted sorted.recommendation
      else some (contributed (agreed (member_policies sorted.members) sorted))
