-- ===== src/Dns/Reconcile.antt =====
-- The reconcile loop of internal/controller/dsns_reconciler.go. It runs over the state that all
-- reconcilers share and over what stands outside the process, and it lists the notifications sent.
pub mod Soundness
pub mod Served
pub mod Finalizer
pub mod Adoption
pub mod Announced
pub mod Told
use seam_core.Prelude.{
  ℕ, String, Bool, true, false, not, ◌||◌, List, [], ◌∷◌, ◌++◌, map, any, select, Option, none,
  some, ◌==◌, nat_eq, if◌then◌else◌, decimal, ◌⊕◌,
}
use seam_core.Kube.Object.{
  ObjectKey, GroupVersionKind, Unstructured, RawCondition, fields, malformed, text_at,
}
use seam_core.Kube.Client.{
  Error, wrap, Result, ok, err, is_not_found, Api, pure, raise, try_or, on_result, within, ◌>>=◌,
  ◌>>◌, ObjectClient,
}
use seam_core.Dns.Event.{
  DsnsEvent, SourceRef, Delivery, record_category_cluster_topology, record_category_identity_plane,
  record_category_pack_lineage, record_category_execution_authority, severity_warning,
  severity_informational, operation_deleted, operation_updated,
}
use seam_core.Dns.Zone.{Record, default_ttl, record_type_a}
use seam_core.Dns.Writer.{ConfigMap}
use seam_core.Dns.State.{DsnsState, set_static_record, remove_records, update_records, apply}
use seam_core.Dns.Derive.{
  has_condition_true, cluster_context_for_namespace, bare_record, derive_records,
}

unfoldable pub category_for_kind : String → String
category_for_kind kind =
    if kind == "InfrastructureTalosCluster"
      || kind == "SeamInfrastructureCluster"
      || kind == "SeamInfrastructureMachine"
    then record_category_cluster_topology
    else if kind == "IdentityBinding" || kind == "IdentityProvider"
    then record_category_identity_plane
    else if kind == "InfrastructurePackInstance"
        || kind == "InfrastructureClusterPack"
        || kind == "InfrastructurePackExecution"
    then record_category_pack_lineage
    else if kind == "InfrastructureRunnerConfig"
    then record_category_execution_authority
    else record_category_cluster_topology

unfoldable pub record_strings : List Record → List String
unfolding decimal
record_strings = map (λ r.
    r.name
    ⊕ " "
    ⊕ decimal (if nat_eq r.ttl 0 then default_ttl else r.ttl)
    ⊕ " IN "
    ⊕ r.rtype
    ⊕ " "
    ⊕ r.value)

unfoldable pub severity_for_object : Unstructured → String → String
unfolding has_condition_true
severity_for_object obj kind =
    if kind == "InfrastructureRunnerConfig"
    then (if has_condition_true obj "Degraded" then severity_warning else severity_informational)
    else severity_informational

abbrev source_ref : GroupVersionKind → ObjectKey → SourceRef
source_ref gvk req = record {
  group = gvk.group;
  version = gvk.version;
  kind = gvk.kind;
  name = req.name;
  namespace = req.namespace;
}

unfoldable pub deletion_event : GroupVersionKind → ObjectKey → DsnsEvent
unfolding category_for_kind cluster_context_for_namespace
deletion_event gvk req = record {
  record_category = category_for_kind gvk.kind;
  operation = operation_deleted;
  source_ref = source_ref gvk req;
  cluster_context = cluster_context_for_namespace req.namespace;
  derived_records = [];
  severity = severity_informational;
}

unfoldable pub update_event : GroupVersionKind → ObjectKey → Unstructured → List Record → DsnsEvent
unfolding category_for_kind cluster_context_for_namespace record_strings severity_for_object
update_event gvk req obj records = record {
  record_category = category_for_kind gvk.kind;
  operation = operation_updated;
  source_ref = source_ref gvk req;
  cluster_context = cluster_context_for_namespace req.namespace;
  derived_records = record_strings records;
  severity = severity_for_object obj gvk.kind;
}

abbrev pub dsns_finalizer : String
dsns_finalizer = "dsns.infrastructure.ontai.dev/cleanup"

unfoldable pub dsns_owner_id : String → String → String → String
dsns_owner_id kind namespace name = kind ⊕ "/" ⊕ namespace ⊕ "/" ⊕ name

unfoldable pub contains_dsns_finalizer : Unstructured → Bool
contains_dsns_finalizer obj = any (λ f. f == dsns_finalizer) obj.finalizers

unfoldable pub add_dsns_finalizer : Unstructured → Unstructured
add_dsns_finalizer obj = record obj { finalizers = obj.finalizers ++ dsns_finalizer ∷ [] }

unfoldable pub remove_dsns_finalizer : Unstructured → Unstructured
remove_dsns_finalizer obj = record obj {
  finalizers = select (λ f. not (f == dsns_finalizer)) obj.finalizers;
}

-- The address of the first ingress of the Service, or else the fallback.
abbrev ingress_ip : List RawCondition → String → String
ingress_ip (fields m ∷ is) fallback = if text_at m "ip" == "" then fallback else text_at m "ip"
ingress_ip _ fallback = fallback

-- What a reconciler works on: the shared state, what stands outside, and the goroutines started.
pub record World (Sink S : Type 0) : Type 0 where
  pub state : DsnsState Sink
  pub outside : S
  pub sent : List (Delivery Sink)

-- The key of an object of one kind.
abbrev pub KindKey : Type 0
KindKey = GroupVersionKind × ObjectKey

abbrev loadbalancer : KindKey
loadbalancer = (
  record { group = ""; version = "v1"; kind = "Service" },
  record { namespace = "kube-system"; name = "dsns-loadbalancer" },
)

abbrev request_text : GroupVersionKind → ObjectKey → String
request_text gvk req = gvk.kind ⊕ " " ⊕ req.namespace ⊕ "/" ⊕ req.name

module _ {Sink S : Type 0} where
  -- A call of the client leaves the state alone.
  abbrev pub lift : {A : Type 0} → Api S A → Api (World Sink S) A
  lift m w = let (r, t) = m w.outside in (r, record w { outside = t })

  -- One call of a method of the state.
  abbrev pub modify : (DsnsState Sink → DsnsState Sink) → Api (World Sink S) (Unit {0})
  modify f w = (ok tt, record w { state = f w.state })

  abbrev pub record_sent :
      Result (List (Delivery Sink)) × S → World Sink S → Result (Unit {0}) × World Sink S
  record_sent (ok ds, t) w = (ok tt, record w { outside = t; sent = w.sent ++ ds })
  record_sent (err e, t) w = (err e, record w { outside = t })

-- The parameters of a reconciler: the clients, the digest of crypto/sha256, the kind that it
-- watches, the fallback address of the nameserver, and the Unix time of this run.
pub record Reconciler (S : Type 0) : Type 0 where
  pub objects : ObjectClient S KindKey Unstructured
  pub maps : ObjectClient S ObjectKey ConfigMap
  pub sha256_hex : String → String
  pub gvk : GroupVersionKind
  pub ns_glue_fallback_ip : String
  pub now : ℕ

module _ {Sink S : Type 0} (r : Reconciler S) where
  -- `r.State.Apply`
  unfoldable pub apply_state : List DsnsEvent → Api (World Sink S) (Unit {0})
  unfolding apply
  apply_state events w = record_sent (apply r.maps r.now w.state events w.outside) w

  unfoldable pub set_glue : String → Api (World Sink S) (Unit {0})
  set_glue ip =
      if ip == ""
      then pure tt
      else modify (λ s. set_static_record s (bare_record "ns" record_type_a ip))

  unfoldable pub refresh_ns_glue : Api (World Sink S) (Unit {0})
  unfolding set_glue text_at
  refresh_ns_glue =
      try_or (lift (r.objects.fetch loadbalancer))
        (λ svc. set_glue (ingress_ip svc.ingress r.ns_glue_fallback_ip))
        (λ e. set_glue r.ns_glue_fallback_ip)

  -- The object is being deleted: its records go first, and then the finalizer.
  unfoldable pub reconcile_deleting : ObjectKey → Unstructured → Api (World Sink S) (Unit {0})
  unfolding dsns_owner_id contains_dsns_finalizer remove_dsns_finalizer deletion_event apply_state
  reconcile_deleting req obj =
      if contains_dsns_finalizer obj
      then (modify (λ s. remove_records s (dsns_owner_id r.gvk.kind req.namespace req.name))
          >> apply_state (deletion_event r.gvk req ∷ [])
          >> lift (r.objects.update (remove_dsns_finalizer obj)))
      else pure tt

  -- The object with the finalizer, fetched anew if it had to be added.
  unfoldable pub ensure_finalizer : ObjectKey → Unstructured → Api (World Sink S) Unstructured
  unfolding contains_dsns_finalizer add_dsns_finalizer
  ensure_finalizer req obj =
      if contains_dsns_finalizer obj
      then pure obj
      else (within ("add finalizer to " ⊕ request_text r.gvk req)
            (lift (r.objects.update (add_dsns_finalizer obj)))
          >> within "re-fetch after finalizer" (lift (r.objects.fetch (r.gvk, req))))

  -- The records of the object replace those that it owned, and the zone is written.
  unfoldable pub write_records : ObjectKey → Unstructured → Api (World Sink S) (Unit {0})
  unfolding dsns_owner_id derive_records update_event apply_state
  write_records req obj =
      let records = derive_records r.sha256_hex r.gvk.kind obj in
      modify (λ s. update_records s (dsns_owner_id r.gvk.kind req.namespace req.name) records)
      >> within "apply zone to ConfigMap" (apply_state (update_event r.gvk req obj records ∷ []))

  -- The object is gone: its records are removed as far as that goes.
  unfoldable pub reconcile_absent : ObjectKey → Api (World Sink S) (Unit {0})
  unfolding dsns_owner_id deletion_event apply_state
  reconcile_absent req =
      modify (λ s. remove_records s (dsns_owner_id r.gvk.kind req.namespace req.name))
      >> apply_state (deletion_event r.gvk req ∷ [])

  unfoldable pub reconcile_found : ObjectKey → Unstructured → Api (World Sink S) (Unit {0})
  unfolding reconcile_deleting ensure_finalizer write_records
  reconcile_found req obj =
      if obj.deleting
      then reconcile_deleting req obj
      else ensure_finalizer req obj >>= write_records req

  unfoldable pub reconcile : ObjectKey → Api (World Sink S) (Unit {0})
  unfolding refresh_ns_glue reconcile_found reconcile_absent
  reconcile req =
      refresh_ns_glue
      >> try_or (lift (r.objects.fetch (r.gvk, req))) (reconcile_found req) (λ e.
        if is_not_found e
        then reconcile_absent req
        else raise (wrap ("get " ⊕ request_text r.gvk req) e))
