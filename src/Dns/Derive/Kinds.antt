-- ===== src/Dns/Derive/Kinds.antt =====
-- What the derivation of internal/controller/dsns_reconciler.go emits for each kind of object.
use seam_core.Prelude.{
  mem, String, ◌≡◌, refl, ◌∙◌, ap, ◌≢◌, ◌⊎◌, inl, inr, Bool, true, false, List, [], ◌∷◌, map, arith,
  ◌==◌, eq_refl, eq_of_ne, if◌then◌else◌, All, Lacks, ◌⊕◌,
}
use seam_core.Kube.Object.{Unstructured}
use seam_core.Dns.Endpoint.{cluster_endpoint_ip, IsBare, cluster_endpoint_ip-host, port-ne-empty}
use seam_core.Dns.Zone.{Record, record_type_a, record_type_txt, record_type_ns, record_key}
use seam_core.Dns.State.{key_of_record}
use seam_core.Dns.State.Ownership.{HasPlainType}
use seam_core.Dns.Derive.{
  has_condition_true, bare_record, talos_role_records, derive_talos_cluster_records,
  derive_identity_binding_records, derive_identity_provider_records, derive_pack_instance_records,
  derive_runner_config_records, derive_records, run_record,
}

-- The declared record types have no colon.
plain_a : Lacks ":" record_type_a
plain_a = omega arith

plain_txt : Lacks ":" record_type_txt
plain_txt = omega arith

plain_ns : Lacks ":" record_type_ns
plain_ns = omega arith

record Plain (rs : List Record) : Type 0 where
  each : All HasPlainType rs

Plain-nil : Plain []
Plain-nil = record { each = tt }

Plain-cons : {r : Record} {rs : List Record} → HasPlainType r → Plain rs → Plain (r ∷ rs)
Plain-cons h k = record { each = (h, k.each) }

Plain-if : (b : Bool) {rs ts : List Record} → Plain rs → Plain ts → Plain (if b then rs else ts)
Plain-if true h k = h
Plain-if false h k = k

txt_Plain : (name value : String) → Plain (bare_record name record_type_txt value ∷ [])
txt_Plain name value = Plain-cons plain_txt Plain-nil

role_Plain : (obj : Unstructured) (ip : String) → Plain (talos_role_records obj ip)
unfolding talos_role_records
role_Plain obj ip = Plain-if _ (Plain-cons plain_ns (Plain-cons plain_a Plain-nil)) (txt_Plain _ _)

talos_Plain : (obj : Unstructured) → Plain (derive_talos_cluster_records obj)
unfolding derive_talos_cluster_records
talos_Plain obj =
    Plain-if _ (Plain-if _ Plain-nil (Plain-cons plain_a (Plain-cons plain_a (role_Plain obj _))))
      Plain-nil

binding_Plain :
    (sha256_hex : String → String) (obj : Unstructured)
    → Plain (derive_identity_binding_records sha256_hex obj)
unfolding derive_identity_binding_records
binding_Plain sha256_hex obj =
    Plain-if _ (Plain-if _ Plain-nil (Plain-if _ Plain-nil (txt_Plain _ _))) Plain-nil

provider_Plain : (obj : Unstructured) → Plain (derive_identity_provider_records obj)
unfolding derive_identity_provider_records
provider_Plain obj = Plain-if _ (Plain-if _ Plain-nil (txt_Plain _ _)) Plain-nil

pack_Plain : (obj : Unstructured) → Plain (derive_pack_instance_records obj)
unfolding derive_pack_instance_records
pack_Plain obj = Plain-if _ (Plain-if _ Plain-nil (txt_Plain _ _)) Plain-nil

run_Plain : (obj : Unstructured) → Plain (derive_runner_config_records obj)
unfolding derive_runner_config_records
run_Plain obj =
    Plain-if (has_condition_true obj "Ready")
      (Plain-cons {r = run_record obj "Completed" "Ready"} plain_txt Plain-nil)
      (Plain-if (has_condition_true obj "Degraded")
        (Plain-cons {r = run_record obj "Failed" "Degraded"} plain_txt Plain-nil) Plain-nil)

derive_records-Plain :
    (sha256_hex : String → String) (kind : String) (obj : Unstructured)
    → Plain (derive_records sha256_hex kind obj)
unfolding derive_records
derive_records-Plain sha256_hex kind obj = Plain-if _ (talos_Plain obj) (
    Plain-if _ (binding_Plain sha256_hex obj) (
      Plain-if _ (provider_Plain obj)
        (Plain-if _ (pack_Plain obj) (Plain-if _ (run_Plain obj) Plain-nil))))

-- Whatever the kind and the object, the records have one of the declared types.
pub derive_records-HasPlainType :
    (sha256_hex : String → String) (kind : String) (obj : Unstructured)
    → All HasPlainType (derive_records sha256_hex kind obj)
derive_records-HasPlainType sha256_hex kind obj = (derive_records-Plain sha256_hex kind obj).each

-- A cluster that is not ready, or that has no endpoint, has no records.
pub derive_talos_cluster_records-nil :
    (obj : Unstructured)
    → (has_condition_true obj "Ready" ≡ false)
      ⊎ (obj.nested_string ("spec" ∷ "clusterEndpoint" ∷ []) ≡ "")
    → derive_talos_cluster_records obj ≡ []
unfolding derive_talos_cluster_records
derive_talos_cluster_records-nil obj (inl e) = rw e
derive_talos_cluster_records-nil obj (inr e) = ground (arith, ap (λ x. x == "") e)

talos_shape :
    (obj : Unstructured)
    → let endpoint = obj.nested_string ("spec" ∷ "clusterEndpoint" ∷ []) in
      derive_talos_cluster_records obj ≡ (
        if has_condition_true obj "Ready"
        then (if endpoint == ""
            then []
            else bare_record obj.name record_type_a (cluster_endpoint_ip endpoint)
              ∷ bare_record ("api." ⊕ obj.name) record_type_a (cluster_endpoint_ip endpoint)
              ∷ talos_role_records obj (cluster_endpoint_ip endpoint))
        else [])
unfolding derive_talos_cluster_records
talos_shape obj = refl

-- A ready cluster whose endpoint is `host:port`, with a host and a port that have no colon and no
-- bracket, has the host, without the port, in an A record under its name and in one under api, and
-- then its delegation or its role.
pub derive_talos_cluster_records-ready :
    (obj : Unstructured) (host port : String)
    → has_condition_true obj "Ready" ≡ true
    → obj.nested_string ("spec" ∷ "clusterEndpoint" ∷ []) ≡ host ⊕ ":" ⊕ port
    → IsBare host
    → IsBare port
    → derive_talos_cluster_records obj
      ≡ bare_record obj.name record_type_a host
        ∷ bare_record ("api." ⊕ obj.name) record_type_a host
        ∷ talos_role_records obj host
derive_talos_cluster_records-ready obj host port ready endpoint h p =
    talos_shape obj
    ∙ rw (ready, endpoint, port-ne-empty host port, (cluster_endpoint_ip-host host port h p).0)

-- Two ready clusters with one name have a common record key, in whatever namespaces they are.
pub same_name-mem :
    (obj : Unstructured)
    → has_condition_true obj "Ready" ≡ true
    → obj.nested_string ("spec" ∷ "clusterEndpoint" ∷ []) ≢ ""
    → mem (record_key record_type_a obj.name) (map key_of_record (derive_talos_cluster_records obj))
      ≡ true
same_name-mem obj ready endpoint =
    rw (talos_shape obj, ready, eq_of_ne _ _ endpoint)
      (rw (eq_refl (record_key record_type_a obj.name)))
