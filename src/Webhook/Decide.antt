-- ===== src/Webhook/Decide.antt =====
-- The decisions of internal/webhook: rootbinding_immutability.go, authorship_gate.go and
-- domainref_validation.go.
use seam_core.Prelude.{
  String, Bool, true, false, not, ◌&&◌, ◌||◌, Option, some, ◌==◌, if◌then◌else◌, quote, ◌⊕◌,
}

abbrev pub infrastructure_lineage_index_kind : String
infrastructure_lineage_index_kind = "InfrastructureLineageIndex"

-- `AdmissionOperation` is a string type.
abbrev pub operation_create : String
operation_create = "CREATE"

abbrev pub operation_update : String
operation_update = "UPDATE"

abbrev pub operation_delete : String
operation_delete = "DELETE"

abbrev pub lineage_controller_identity : String
lineage_controller_identity = "system:serviceaccount:seam-system:lineage-controller"

abbrev pub valid_infrastructure_domain_ref : String
valid_infrastructure_domain_ref = "infrastructure.core.ontai.dev"

-- The three decision types have these two fields.
pub record Decision : Type 0 where
  pub is_allowed : Bool
  pub reason : String

abbrev pub admit : Decision
admit = record { is_allowed = true; reason = "" }

abbrev pub refuse : String → Decision
refuse reason = record { is_allowed = false; reason = reason }

pub record RootBindingImmutabilityRequest : Type 0 where
  pub kind : String
  pub operation : String
  pub old_root_binding_raw : String
  pub new_root_binding_raw : String

pub record AuthorshipGateRequest : Type 0 where
  pub kind : String
  pub operation : String
  pub requesting_user : String

pub record DomainRefValidationRequest : Type 0 where
  pub kind : String
  pub operation : String
  pub domain_ref : String

-- No bytes, or JSON null.
unfoldable pub is_empty_raw : String → Bool
is_empty_raw raw = raw == "" || raw == "null"

-- JSON decoding into `interface{}` and the comparison of what it gives: `json.Unmarshal`, with
-- `none` for its error, and `reflect.DeepEqual`.
pub record Json : Type 1 where
  pub Doc : Type 0
  pub decode : String → Option Doc
  pub deep_equal : Doc → Doc → Bool

module _ (json : Json) where
  open json use {Doc, decode, deep_equal}

  abbrev pub equal_docs : Option Doc → Option Doc → Bool
  equal_docs (some a) (some b) = deep_equal a b
  equal_docs _ _ = false

  unfoldable pub root_binding_raw_equal : String → String → Bool
  root_binding_raw_equal a b =
      if is_empty_raw a && is_empty_raw b
      then true
      else if is_empty_raw a || is_empty_raw b
      then false
      else equal_docs (decode a) (decode b)

  unfoldable pub evaluate_root_binding_immutability : RootBindingImmutabilityRequest → Decision
  evaluate_root_binding_immutability req =
      if not (req.kind == infrastructure_lineage_index_kind)
      then admit
      else if not (req.operation == operation_update)
      then admit
      else if root_binding_raw_equal req.old_root_binding_raw req.new_root_binding_raw
      then admit
      else refuse (
          "spec.rootBinding on " ⊕ infrastructure_lineage_index_kind
          ⊕ " is immutable after creation and cannot be modified; "
          ⊕ "the rootBinding section identifies the root declaration that anchors this "
          ⊕ "lineage index and is sealed at admission — any field change is rejected "
          ⊕ "(seam-core-schema.md §3.1, domain-core-schema.md §2.1); "
          ⊕ "to record a different root binding, create a new InfrastructureLineageIndex")

unfoldable pub evaluate_authorship_gate : AuthorshipGateRequest → Decision
unfolding quote
evaluate_authorship_gate req =
    if not (req.kind == infrastructure_lineage_index_kind)
    then admit
    else if req.operation == operation_delete
    then admit
    else if req.requesting_user == lineage_controller_identity
    then admit
    else refuse (
        "InfrastructureLineageIndex instances are controller-authored exclusively; "
        ⊕ "only the InfrastructureLineageController ServiceAccount ("
        ⊕ quote lineage_controller_identity
        ⊕ ") may create or "
        ⊕ "update them — no human operator, automation pipeline, or other controller "
        ⊕ "is authorized to write InfrastructureLineageIndex resources "
        ⊕ "(CLAUDE.md §14 Decision 3, seam-core-schema.md §7 Declaration 4); "
        ⊕ "requesting user "
        ⊕ quote req.requesting_user
        ⊕ " is not authorized")

unfoldable pub evaluate_domain_ref_validation : DomainRefValidationRequest → Decision
unfolding quote
evaluate_domain_ref_validation req =
    if not (req.kind == infrastructure_lineage_index_kind)
    then admit
    else if not (req.operation == operation_create)
    then admit
    else if req.domain_ref == ""
    then admit
    else if req.domain_ref == valid_infrastructure_domain_ref
    then admit
    else refuse (
        "spec.domainRef must be "
        ⊕ quote valid_infrastructure_domain_ref
        ⊕ " for infrastructure domain ILIs; "
        ⊕ "unknown domain ref "
        ⊕ quote req.domain_ref
        ⊕ " — the only valid traceability link for "
        ⊕ "InfrastructureLineageIndex is the infrastructure domain root at core.ontai.dev "
        ⊕ "(seam-core-schema.md §3, CLAUDE.md §14 Decision 2)")
