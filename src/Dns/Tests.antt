-- ===== src/Dns/Tests.antt =====
-- Concrete inputs for the theorems about DSNS, and tests.
use seam_core.Prelude.{
  map, mem, ℕ, String, ◌≡◌, refl, ◌≢◌, ◌⊎◌, true, false, List, [], ◌∷◌, none, arith, ◌==◌, eq_iff,
  has_char, get, if◌then◌else◌, All,
}
use seam_core.Kube.Object.{
  ObjectKey, GroupVersionKind, Unstructured, RawCondition, fields, malformed, text,
}
use seam_core.Kube.Client.{ok, ObjectClient}
use seam_core.Kube.Memory.{same_key, same_key_iff, view_memory, memory, memory-IsStore}
use seam_core.Dns.Endpoint.{IsBare}
use seam_core.Dns.Zone.{Record, record_type_a, record_key, add_record, render}
use seam_core.Dns.Writer.{ConfigMap, key_of_map, apply_content}
use seam_core.Dns.Writer.Refinement.{Published, apply_content-Published}
use seam_core.Dns.State.{
  apply, DsnsState, new_dsns_state, key_of_record, set_static_record, remove_records,
  update_records,
}
use seam_core.Dns.State.Ownership.{
  IsFormed, HasPlainType, record_at, latest, or_else, owned_by, record_at-update_records,
}
use seam_core.Dns.State.Sharing.{shared_key_lost, IsConsistent, Avoids, update_records-IsConsistent}
use seam_core.Dns.Derive.{
  bare_record, derive_talos_cluster_records, has_condition_true, talos_role_records,
}
use seam_core.Dns.Derive.Kinds.{derive_talos_cluster_records-ready}
use seam_core.Dns.State.Reachable.{IsOwned, start, next, update, remove, IsSound, Reach-IsSound}
use seam_core.Dns.Reconcile.{
  World, Reconciler, KindKey, reconcile, write_records, apply_state, dsns_finalizer,
  contains_dsns_finalizer, reconcile_found,
}
use seam_core.Dns.Reconcile.Announced.{Told}
use seam_core.Dns.Reconcile.Told.{reconcile-Told}
use seam_core.Dns.Reconcile.Served.{Served, next_state, reconcile_found-Served}
use seam_core.Dns.Reconcile.Soundness.{serve, initial, glue_key, serve_accounted}

abbrev cluster_gvk : GroupVersionKind
cluster_gvk = record {
  group = "infrastructure.ontai.dev";
  version = "v1alpha1";
  kind = "InfrastructureTalosCluster";
}

abbrev ready : RawCondition
ready = fields (("type", text "Ready") ∷ ("status", text "True") ∷ [])

abbrev spec_of : String → List String → String
spec_of endpoint (s ∷ f ∷ []) = if f == "clusterEndpoint" then endpoint else ""
spec_of endpoint _ = ""

abbrev cluster : String → String → Unstructured
cluster ns endpoint = record {
  gvk = cluster_gvk;
  namespace = ns;
  name = "alpha";
  uid = "u1";
  generation = 1;
  deleting = false;
  annotations = [];
  labels = [];
  finalizers = [];
  nested_string = spec_of endpoint;
  conditions = malformed ∷ ready ∷ [];
  ingress = [];
}

host-IsBare : IsBare "10.0.0.1"
unfolding has_char
host-IsBare = record { no_colon = refl; no_open = refl; no_close = refl }

port-IsBare : IsBare "6443"
unfolding has_char
port-IsBare = record { no_colon = refl; no_open = refl; no_close = refl }

derive_talos_cluster_records-ready_example :
    derive_talos_cluster_records (cluster "seam-system" "10.0.0.1:6443")
    ≡ bare_record "alpha" record_type_a "10.0.0.1"
      ∷ bare_record "api.alpha" record_type_a "10.0.0.1"
      ∷ talos_role_records (cluster "seam-system" "10.0.0.1:6443") "10.0.0.1"
unfolding has_condition_true
derive_talos_cluster_records-ready_example =
    derive_talos_cluster_records-ready (cluster "seam-system" "10.0.0.1:6443") "10.0.0.1" "6443"
      refl refl host-IsBare port-IsBare

abbrev a_record : Record
a_record = bare_record "alpha" record_type_a "10.0.0.1"

abbrev empty_state : DsnsState ℕ
empty_state = new_dsns_state

empty-IsFormed : IsFormed empty_state
unfolding owned_by get
empty-IsFormed o = tt

record_at-update_records_example :
    record_at (update_records empty_state "o" (a_record ∷ [])).zone "A:alpha"
    ≡ or_else (latest "A:alpha" (a_record ∷ [])) (
        if mem "A:alpha" (owned_by empty_state "o")
        then none
        else record_at empty_state.zone "A:alpha")
record_at-update_records_example =
    record_at-update_records empty_state "o" (a_record ∷ []) "A:alpha" empty-IsFormed

empty-IsConsistent : IsConsistent empty_state
unfolding owned_by get
empty-IsConsistent = record {
  formed = empty-IsFormed;
  exclusive = λ o p k m n. cc;
  served = λ o k m. cc;
}

a_plain : All HasPlainType (a_record ∷ [])
a_plain = omega arith

empty-Avoids : Avoids empty_state "o" (a_record ∷ [])
unfolding owned_by get
empty-Avoids o k n m = cc

update_records-IsConsistent_example : IsConsistent (update_records empty_state "o" (a_record ∷ []))
update_records-IsConsistent_example =
    update_records-IsConsistent empty_state "o" (a_record ∷ []) a_plain empty-Avoids
      empty-IsConsistent

-- The cluster of one name in two tenants, and the second one deleted.
shared_key_lost_example :
    let rs = a_record ∷ [] in
    let t = remove_records (update_records (update_records empty_state "a" rs) "b" rs) "b" in
    (mem (key_of_record a_record) (owned_by t "a") ≡ true)
    × (record_at t.zone (key_of_record a_record) ≡ none)
shared_key_lost_example =
    shared_key_lost empty_state "a" "b" (key_of_record a_record) (a_record ∷ []) (a_record ∷ [])
      empty-IsFormed a_plain a_plain
      (λ (e : ◌≡◌ {A = String} "a" "b"). ground (arith, eq_iff "a" "b")) (unfold record_key in refl)
      (unfold record_key in refl)

Reach-IsSound_example :
    IsSound [] (remove_records (update_records empty_state "a" (a_record ∷ [])) "a")
Reach-IsSound_example =
    Reach-IsSound (next (next (start []) (update "a" (a_record ∷ []) a_plain)) (remove "a"))

abbrev map_client : ObjectClient (List ConfigMap) ObjectKey ConfigMap
map_client = memory key_of_map same_key

apply_content-Published_example :
    Published
      (view_memory key_of_map same_key)
      "zone text"
      []
      (apply_content map_client "zone text" [])
apply_content-Published_example =
    apply_content-Published (view_memory key_of_map same_key) map_client
      (memory-IsStore key_of_map same_key same_key_iff) "zone text" []

-- The clients over one store of objects and one of ConfigMaps.
abbrev Outside : Type 0
Outside = List ConfigMap

abbrev idle_objects : ObjectClient Outside KindKey Unstructured
idle_objects = record {
  fetch = λ k s. (ok (cluster k.1.namespace "10.0.0.1:6443"), s);
  create = λ v s. (ok tt, s);
  patch = λ old v s. (ok tt, s);
  update = λ v s. (ok tt, s);
}

abbrev reconciler : Reconciler Outside
reconciler = record {
  objects = idle_objects;
  maps = map_client;
  sha256_hex = λ s. s;
  gvk = cluster_gvk;
  ns_glue_fallback_ip = "10.0.0.9";
  now = 1700000000;
}

abbrev requests : List (Reconciler Outside × ObjectKey)
requests =
    (reconciler, record { namespace = "seam-tenant-a"; name = "alpha" })
    ∷ (reconciler, record { namespace = "seam-tenant-b"; name = "alpha" })
    ∷ []

served : record_at (serve requests (initial {Sink = ℕ} [] [])).state.zone "A:alpha" ≢ none
unfolding serve update_records add_record set_static_record record_at get
served e = cc

serve_accounted_example :
    ("A:alpha" ≡ glue_key) ⊎ IsOwned (serve requests (initial {Sink = ℕ} [] [])).state "A:alpha"
serve_accounted_example = serve_accounted requests [] [] "A:alpha" served

-- The zone after one reconcile, as it is rendered.
rendered :
    render 7 (serve requests (initial {Sink = ℕ} [] [])).state.zone
    ≡ "$ORIGIN seam.ontave.dev.\n$TTL 300\n\n@ 300 IN SOA ns.seam.ontave.dev. hostmaster.seam.ontave.dev. (\n    7 ; serial\n    3600        ; refresh\n    900         ; retry\n    604800      ; expire\n    300         ; minimum TTL\n)\n\n@ 300 IN NS ns.seam.ontave.dev.\n\nalpha 300 IN A 10.0.0.1\napi.alpha 300 IN A 10.0.0.1\nns 300 IN A 10.0.0.9\nrole.alpha 300 IN TXT \"general\"\n"
unfolding serve render update_records add_record set_static_record
rendered = refl

-- The cluster with the finalizer, which is being deleted.
abbrev leaving : Unstructured
leaving = record (cluster "seam-tenant-a" "10.0.0.1:6443") {
  deleting = true;
  finalizers = dsns_finalizer ∷ [];
}

abbrev tenant_a : ObjectKey
tenant_a = record { namespace = "seam-tenant-a"; name = "alpha" }

leaving_finalized : contains_dsns_finalizer leaving ≡ true
unfolding contains_dsns_finalizer
leaving_finalized = refl

reconcile_found-Served_example :
    let w = serve requests (initial {Sink = ℕ} [] []) in
    let view = view_memory key_of_map same_key in
    Served view reconciler
      (next_state view reconciler tenant_a leaving w.state)
      (reconcile_found reconciler tenant_a leaving w)
reconcile_found-Served_example =
    reconcile_found-Served (view_memory key_of_map same_key) reconciler
      (memory-IsStore key_of_map same_key same_key_iff) (λ v s j. refl) tenant_a leaving
      (serve requests (initial {Sink = ℕ} [] [])) leaving_finalized

-- The process at its start, with two sinks.
abbrev listened : World ℕ (List ConfigMap)
listened = initial (3 ∷ 4 ∷ []) []

reconcile-Told_example :
    Told reconciler tenant_a (3 ∷ 4 ∷ []) [] (reconcile reconciler tenant_a listened)
reconcile-Told_example = reconcile-Told reconciler tenant_a listened

listened_sinks : map (λ d. d.sink) (reconcile reconciler tenant_a listened).1.sent ≡ 3 ∷ 4 ∷ []
unfolding reconcile reconcile_found write_records apply_state apply update_records set_static_record
listened_sinks = refl
