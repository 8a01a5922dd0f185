-- ===== src/Lineage/Index.antt =====
-- api/v1alpha1/infrastructurelineageindex_types.go.
use seam_core.Prelude.{ℕ, String, Bool, List, Option, Dict}
use seam_core.Prelude.Int.{ℤ}
use seam_core.Kube.Object.{ObjectKey}

pub record RootBinding : Type 0 where
  pub root_kind : String
  pub root_name : String
  pub root_namespace : String
  pub root_uid : String
  pub root_observed_generation : ℕ
  pub declaring_principal : String

-- `created_at` is in seconds since the epoch; `none` is nil.
pub record DescendantEntry : Type 0 where
  pub group : String
  pub version : String
  pub kind : String
  pub name : String
  pub namespace : String
  pub uid : String
  pub seam_operator : String
  pub creation_rationale : String
  pub root_generation_at_creation : ℕ
  pub created_at : Option ℕ
  pub actor_ref : String

pub record PolicyBindingStatus : Type 0 where
  pub domain_policy_ref : String
  pub domain_profile_ref : String
  pub policy_generation_at_last_evaluation : ℕ
  pub drift_detected : Bool

abbrev pub outcome_type_succeeded : String
outcome_type_succeeded = "Succeeded"

abbrev pub outcome_type_failed : String
outcome_type_failed = "Failed"

abbrev pub outcome_type_drifted : String
outcome_type_drifted = "Drifted"

abbrev pub outcome_type_superseded : String
outcome_type_superseded = "Superseded"

pub record OutcomeEntry : Type 0 where
  pub derived_object_uid : String
  pub outcome_type : String
  pub outcome_timestamp : ℕ
  pub outcome_ref : String
  pub outcome_detail : String

pub record LineageRetentionPolicy : Type 0 where
  pub descendant_retention_days : ℤ
  pub delete_with_root : Bool

pub record IndexSpec : Type 0 where
  pub root_binding : RootBinding
  pub domain_ref : String
  pub descendant_registry : List DescendantEntry
  pub policy_binding_status : Option PolicyBindingStatus
  pub outcome_registry : List OutcomeEntry
  pub retention_policy : Option LineageRetentionPolicy

-- metav1.OwnerReference
pub record OwnerReference : Type 0 where
  pub api_version : String
  pub kind : String
  pub name : String
  pub uid : String
  pub block_owner_deletion : Bool

-- The parts of the metadata that the code reads or writes, and the spec; nothing here reads the
-- status.
pub record LineageIndex : Type 0 where
  pub name : String
  pub namespace : String
  pub annotations : Dict String
  pub labels : Dict String
  pub owner_references : List OwnerReference
  pub spec : IndexSpec

abbrev pub key_of_index : LineageIndex → ObjectKey
key_of_index ili = record { namespace = ili.namespace; name = ili.name }

abbrev pub with_descendants : LineageIndex → List DescendantEntry → LineageIndex
with_descendants ili es = record ili { spec = record ili.spec { descendant_registry = es } }

abbrev pub with_outcomes : LineageIndex → List OutcomeEntry → LineageIndex
with_outcomes ili es = record ili { spec = record ili.spec { outcome_registry = es } }
