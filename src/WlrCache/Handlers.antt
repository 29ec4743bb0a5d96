-- ===== src/WlrCache/Handlers.antt =====
-- internal/wlrcache/write.go: the calls that Request, Ensure and Record make.
use k8s_sustain.Prelude.{Bool, ◌&&◌, Option, none, some, String, is_filled, if◌then◌else◌}
use k8s_sustain.Prelude.Time.{Time, zero_time}
use k8s_sustain.Units.{Quantities}
use k8s_sustain.WlrCache.{WorkloadReference, same_text, Snapshot, Object, Lifetimes, object_name}
use k8s_sustain.WlrCache.Client.{
  Client, not_found, already_exists, Reply, answer, refused, ObjectKey, not_ensured, reading,
  creating, claiming, patching, recording, snapshot, M, pure, fail, ◌>>=◌, attempt,
}
use k8s_sustain.WlrCache.Writing.{
  same_ref, copy_into, should_request, no_status, with_snapshot, ensured_status, is_settled,
  Decision, desired_status, is_unchanged,
}

module _ (to_lower sha256_hex : String → String) where
  unfoldable pub key_of : WorkloadReference → ObjectKey
  key_of ref = (ref.namespace, object_name to_lower sha256_hex ref.kind ref.name)

  module _ {F Q : Type 0} where
    unfoldable pub new_object : WorkloadReference → String → Object F Q
    unfolding key_of
    new_object ref policy = record {
      namespace = (key_of ref).0;
      name = (key_of ref).1;
      policy_label = policy;
      stub_label = "";
      created = zero_time;
      uid = "";
      resource_version = "";
      ref = ref;
      policy = policy;
      status = no_status;
    }

    -- What a blind claim knows of the object: its key.
    abbrev pub unread : WorkloadReference → Object F Q
    unread ref = record {
      namespace = (key_of ref).0;
      name = (key_of ref).1;
      policy_label = "";
      stub_label = "";
      created = zero_time;
      uid = "";
      resource_version = "";
      ref = record { kind = ""; namespace = ""; name = "" };
      policy = "";
      status = no_status;
    }

  module _ {S F Q : Type 0} (api : Client S F Q) where
    unfoldable pub write_snapshot : Object F Q → Snapshot Q → M S (Unit {0})
    write_snapshot known observed = do
      _ ← attempt snapshot (api.patch_status (with_snapshot known observed) known)
      pure tt

    -- The follow-up of a creation by Request; another writer's object is left to it.
    abbrev created_stub : Snapshot Q → Reply (Object F Q) → M S (Unit {0})
    created_stub observed (answer obj) =
        if is_filled observed then write_snapshot obj observed else pure tt
    created_stub observed (refused already_exists) = pure tt
    created_stub observed (refused e) = fail (creating e)

    unfoldable pub request :
        Option (Object F Q) → WorkloadReference → String → Snapshot Q → M S (Unit {0})
    unfolding write_snapshot
    request (some known) ref policy observed s =
        (if should_request (some known) policy observed
            then write_snapshot known (copy_into observed known.status.observed_resources)
            else pure tt)
          s
    request none ref policy observed s =
        let made = api.create (record (new_object ref policy) { stub_label = "true" }) s in
        created_stub observed made.1 made.0

    unfoldable pub claim : Object F Q → WorkloadReference → String → M S (Object F Q)
    claim known ref policy =
        attempt claiming
          (api.patch (record known { ref = ref; policy = policy; policy_label = policy }) known)

    abbrev claim_created : WorkloadReference → String → Reply (Object F Q) → M S (Object F Q)
    claim_created ref policy (answer obj) = pure obj
    claim_created ref policy (refused already_exists) = claim (unread ref) ref policy
    claim_created ref policy (refused e) = fail (creating e)

    unfoldable pub create : WorkloadReference → String → M S (Object F Q)
    unfolding claim
    create ref policy s =
        let made = api.create (new_object ref policy) s in claim_created ref policy made.1 made.0

    -- Whether the object names its identity and the Policy.
    abbrev pub is_claimed : Object F Q → WorkloadReference → String → Bool
    is_claimed known ref policy =
        same_ref known.ref ref
        && same_text known.policy policy
        && same_text known.policy_label policy

    abbrev claim_found : WorkloadReference → String → Reply (Object F Q) → M S (Object F Q)
    claim_found ref policy (answer known) =
        if is_claimed known ref policy then pure known else claim known ref policy
    claim_found ref policy (refused not_found) = create ref policy
    claim_found ref policy (refused e) = fail (reading e)

    module _ ⦃qu : Quantities Q⦄ where
      abbrev pub settle : Lifetimes → Option (Snapshot Q) → Object F Q → M S (Object F Q)
      settle l observed known =
          if is_settled known observed
          then pure known
          else attempt patching
              (api.patch_status (record known { status = ensured_status l known observed }) known)

      unfoldable pub ensure :
          WorkloadReference → String → Option (Snapshot Q) → Lifetimes → M S (Object F Q)
      unfolding claim create
      ensure ref policy observed l s =
          let found = api.get (key_of ref) s in
          (do known ← claim_found ref policy found.1; settle l observed known) found.0

module _ {S F Q : Type 0} (api : Client S F Q) ⦃qu : Quantities Q⦄ where
  unfoldable pub record_decision :
      Option (Object F Q) → Decision F Q → Time → Lifetimes → M S (Unit {0})
  record_decision none d now l = fail not_ensured
  record_decision (some known) d now l =
      let desired = desired_status l known d now in
      if is_unchanged known.status desired then pure tt else (do
        _ ← attempt recording (api.patch_status (record known { status = desired }) known)
        pure tt)
