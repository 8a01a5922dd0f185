-- ===== src/Dns/Derive.antt =====
-- The record derivation of internal/controller/dsns_reconciler.go, one function for each kind.
pub mod Kinds
use seam_core.Prelude.{
  ℕ, String, Bool, true, false, ◌&&◌, ◌||◌, List, [], ◌∷◌, ◌++◌, Option, none, some, ◌==◌,
  if◌then◌else◌, Dict, get, has_prefix, trim_prefix, take_chars, ◌⊕◌,
}
use seam_core.Kube.Object.{Unstructured, RawCondition, fields, malformed, Value, text, is_text}
use seam_core.Dns.Endpoint.{cluster_endpoint_ip}
use seam_core.Dns.Zone.{Record, record_type_a, record_type_txt, record_type_ns, zone}

-- A condition of the type has status "True".
unfoldable pub is_true : List RawCondition → String → Bool
unfolding is_text
is_true [] type = false
is_true (malformed ∷ cs) type = is_true cs type
is_true (fields m ∷ cs) type =
    (is_text m "type" type && is_text m "status" "True") || is_true cs type

unfoldable pub has_condition_true : Unstructured → String → Bool
unfolding is_true
has_condition_true obj type = is_true obj.conditions type

-- The last transition time of the first condition of the type that has one; else "".
abbrev time_or : Option Value → String → String
time_or (some (text t)) rest = t
time_or _ rest = rest

transition_time : List RawCondition → String → String
unfolding is_text get
transition_time [] type = ""
transition_time (malformed ∷ cs) type = transition_time cs type
transition_time (fields m ∷ cs) type =
    let rest = transition_time cs type in
    if is_text m "type" type then time_or (get m "lastTransitionTime") rest else rest

unfoldable pub condition_last_transition_time : Unstructured → String → String
unfolding transition_time
condition_last_transition_time obj type = transition_time obj.conditions type

-- "" for a namespace of no tenant.
unfoldable pub cluster_from_namespace : String → String
unfolding has_prefix trim_prefix
cluster_from_namespace ns =
    if has_prefix ns "seam-tenant-" then trim_prefix ns "seam-tenant-" else ""

unfoldable pub cluster_context_for_namespace : String → String
unfolding cluster_from_namespace
cluster_context_for_namespace ns =
    let c = cluster_from_namespace ns in if c == "" then "management" else c

-- The first text, or the second one where the first is empty.
abbrev pub or_default : String → String → String
or_default s d = if s == "" then d else s

-- A record with the TTL left at zero.
abbrev pub bare_record : String → String → String → Record
bare_record name rtype value = record { name = name; rtype = rtype; ttl = 0; value = value }

-- The delegation of a sovereign cluster, or else the role of the cluster.
unfoldable pub talos_role_records : Unstructured → String → List Record
talos_role_records obj endpoint_ip =
    let name = obj.name in
    if obj.nested_string ("spec" ∷ "infrastructureProvider" ∷ []) == "screen"
    then bare_record name record_type_ns ("ns." ⊕ name ⊕ "." ⊕ zone)
      ∷ bare_record ("ns." ⊕ name) record_type_a endpoint_ip
      ∷ []
    else bare_record ("role." ⊕ name) record_type_txt (
        or_default (obj.nested_string ("status" ∷ "origin" ∷ []))
          (or_default (obj.nested_string ("spec" ∷ "mode" ∷ [])) "general"))
      ∷ []

unfoldable pub derive_talos_cluster_records : Unstructured → List Record
unfolding has_condition_true cluster_endpoint_ip talos_role_records
derive_talos_cluster_records obj =
    let endpoint = obj.nested_string ("spec" ∷ "clusterEndpoint" ∷ []) in
    let ip = cluster_endpoint_ip endpoint in
    if has_condition_true obj "Ready"
    then (if endpoint == ""
        then []
        else bare_record obj.name record_type_a ip
          ∷ bare_record ("api." ⊕ obj.name) record_type_a ip
          ∷ talos_role_records obj ip)
    else []

-- `sha256_hex` is the hexadecimal SHA-256 digest of a text (crypto/sha256, encoding/hex).
unfoldable pub subject_hash : (String → String) → String → String
unfolding take_chars
subject_hash sha256_hex subject = take_chars 16 (sha256_hex subject)

unfoldable pub derive_identity_binding_records : (String → String) → Unstructured → List Record
unfolding has_condition_true cluster_from_namespace subject_hash
derive_identity_binding_records sha256_hex obj =
    let cluster = cluster_from_namespace obj.namespace in
    let subject = obj.nested_string ("spec" ∷ "subject" ∷ []) in
    let profile = obj.nested_string ("spec" ∷ "rbacProfileRef" ∷ "name" ∷ []) in
    let provider = obj.nested_string ("spec" ∷ "identityProviderRef" ∷ "name" ∷ []) in
    let name = "identity." ⊕ subject_hash sha256_hex subject ⊕ ".guardian." ⊕ cluster in
    if has_condition_true obj "TrustAnchorResolved"
    then (if cluster == ""
        then []
        else if subject == ""
        then []
        else bare_record name record_type_txt (profile ⊕ " " ⊕ provider) ∷ [])
    else []

unfoldable pub derive_identity_provider_records : Unstructured → List Record
unfolding has_condition_true
derive_identity_provider_records obj =
    let issuer = obj.nested_string ("status" ∷ "issuerURL" ∷ []) in
    if has_condition_true obj "Valid"
    then (if issuer == ""
        then []
        else bare_record ("idp." ⊕ obj.name ⊕ ".guardian") record_type_txt issuer ∷ [])
    else []

unfoldable pub derive_pack_instance_records : Unstructured → List Record
unfolding has_condition_true cluster_from_namespace
derive_pack_instance_records obj =
    let pack = or_default (obj.nested_string ("spec" ∷ "clusterPackRef" ∷ [])) obj.name in
    let version = or_default (obj.nested_string ("spec" ∷ "version" ∷ [])) "unknown" in
    let cluster =
      or_default (obj.nested_string ("spec" ∷ "targetClusterRef" ∷ []))
        (cluster_from_namespace obj.namespace) in
    let value = or_default (obj.nested_string ("status" ∷ "receiptDigest" ∷ [])) "delivered" in
    let name = "pack." ⊕ pack ⊕ "." ⊕ version ⊕ ".wrapper." ⊕ cluster in
    if has_condition_true obj "Ready"
    then (if cluster == "" then [] else bare_record name record_type_txt value ∷ [])
    else []

-- The record of a run that ended in the phase.
unfoldable pub run_record : Unstructured → String → String → Record
unfolding cluster_from_namespace condition_last_transition_time
run_record obj phase type =
    bare_record
      ("run."
        ⊕ obj.name
        ⊕ ".conductor."
        ⊕ or_default (cluster_from_namespace obj.namespace) "management")
      record_type_txt ("phase=" ⊕ phase ⊕ " completed=" ⊕ condition_last_transition_time obj type)

unfoldable pub derive_runner_config_records : Unstructured → List Record
unfolding has_condition_true run_record
derive_runner_config_records obj =
    if has_condition_true obj "Ready"
    then run_record obj "Completed" "Ready" ∷ []
    else if has_condition_true obj "Degraded"
    then run_record obj "Failed" "Degraded" ∷ []
    else []

-- The dispatch on the kind that a reconciler watches.
unfoldable pub derive_records : (String → String) → String → Unstructured → List Record
unfolding derive_talos_cluster_records derive_identity_binding_records
    derive_identity_provider_records derive_pack_instance_records derive_runner_config_records
derive_records sha256_hex kind obj =
    if kind == "InfrastructureTalosCluster"
    then derive_talos_cluster_records obj
    else if kind == "IdentityBinding"
    then derive_identity_binding_records sha256_hex obj
    else if kind == "IdentityProvider"
    then derive_identity_provider_records obj
    else if kind == "InfrastructurePackInstance"
    then derive_pack_instance_records obj
    else if kind == "InfrastructureRunnerConfig"
    then derive_runner_config_records obj
    else []
