-- ===== src/Lineage/Labels.antt =====
-- pkg/lineage: descendant.go, rationale.go and chain.go.
use seam_core.Prelude.{ℕ, String, ◌⊕◌, to_lower, put}
use seam_core.Kube.Object.{Unstructured}

abbrev pub label_root_ili : String
label_root_ili = "infrastructure.ontai.dev/root-ili"

abbrev pub label_root_ili_namespace : String
label_root_ili_namespace = "infrastructure.ontai.dev/root-ili-namespace"

abbrev pub label_seam_operator : String
label_seam_operator = "infrastructure.ontai.dev/seam-operator"

abbrev pub label_creation_rationale : String
label_creation_rationale = "infrastructure.ontai.dev/creation-rationale"

abbrev pub label_actor_ref : String
label_actor_ref = "infrastructure.ontai.dev/actor-ref"

abbrev pub annotation_declaring_principal : String
annotation_declaring_principal = "infrastructure.ontai.dev/declaring-principal"

-- `CreationRationale` is a string type.
abbrev pub cluster_provision : String
cluster_provision = "ClusterProvision"

abbrev pub cluster_decommission : String
cluster_decommission = "ClusterDecommission"

abbrev pub security_enforcement : String
security_enforcement = "SecurityEnforcement"

abbrev pub pack_execution : String
pack_execution = "PackExecution"

abbrev pub virtualization_fulfillment : String
virtualization_fulfillment = "VirtualizationFulfillment"

abbrev pub conductor_assignment : String
conductor_assignment = "ConductorAssignment"

abbrev pub vortex_binding : String
vortex_binding = "VortexBinding"

pub record OperatorIdentity : Type 0 where
  pub name : String
  pub version : String

pub record SealedCausalChain : Type 0 where
  pub root_kind : String
  pub root_name : String
  pub root_namespace : String
  pub root_uid : String
  pub creating_operator : OperatorIdentity
  pub creation_rationale : String
  pub root_generation_at_creation : ℕ

unfoldable pub index_name : String → String → String
index_name kind name = to_lower kind ⊕ "-" ⊕ name

unfoldable pub set_descendant_labels :
    Unstructured → String → String → String → String → String → Unstructured
unfolding put
set_descendant_labels obj ili_name ili_namespace operator rationale actor_ref =
    let a = put obj.labels label_root_ili ili_name in
    let b = put a label_root_ili_namespace ili_namespace in
    let c = put b label_seam_operator operator in
    let d = put c label_creation_rationale rationale in
    record obj { labels = put d label_actor_ref actor_ref }
