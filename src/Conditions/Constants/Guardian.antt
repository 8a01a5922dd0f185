-- ===== src/Conditions/Constants/Guardian.antt =====
-- pkg/conditions/conditions.go: the cross-operator and Guardian conditions.
use Prim.Native.String.{String}

abbrev pub condition_type_lineage_synced : String
condition_type_lineage_synced = "LineageSynced"

abbrev pub reason_lineage_controller_absent : String
reason_lineage_controller_absent = "LineageControllerAbsent"

abbrev pub condition_type_bootstrap_label_absent : String
condition_type_bootstrap_label_absent = "BootstrapLabelAbsent"

abbrev pub reason_label_absent : String
reason_label_absent = "LabelAbsent"

abbrev pub reason_label_present : String
reason_label_present = "LabelPresent"

abbrev pub condition_type_identity_binding_trust_anchor_resolved : String
condition_type_identity_binding_trust_anchor_resolved = "TrustAnchorResolved"

abbrev pub reason_trust_anchor_resolved : String
reason_trust_anchor_resolved = "TrustAnchorResolved"

abbrev pub reason_trust_anchor_not_found : String
reason_trust_anchor_not_found = "TrustAnchorNotFound"

abbrev pub reason_trust_anchor_invalid : String
reason_trust_anchor_invalid = "TrustAnchorInvalid"

abbrev pub reason_trust_anchor_type_mismatch : String
reason_trust_anchor_type_mismatch = "TrustAnchorTypeMismatch"

abbrev pub reason_trust_method_mismatch : String
reason_trust_method_mismatch = "TrustMethodMismatch"

abbrev pub condition_type_identity_binding_valid : String
condition_type_identity_binding_valid = "IdentityBindingValid"

abbrev pub reason_identity_binding_valid : String
reason_identity_binding_valid = "Valid"

abbrev pub reason_identity_binding_invalid : String
reason_identity_binding_invalid = "Invalid"

abbrev pub reason_permission_set_missing : String
reason_permission_set_missing = "PermissionSetMissing"

abbrev pub reason_permission_set_not_found : String
reason_permission_set_not_found = "PermissionSetNotFound"

abbrev pub reason_token_ttl_exceeded : String
reason_token_ttl_exceeded = "TokenTTLExceeded"

abbrev pub condition_type_identity_provider_reachable : String
condition_type_identity_provider_reachable = "Reachable"

abbrev pub reason_identity_provider_reachable : String
reason_identity_provider_reachable = "Reachable"

abbrev pub reason_identity_provider_unreachable : String
reason_identity_provider_unreachable = "Unreachable"

abbrev pub reason_identity_provider_pending : String
reason_identity_provider_pending = "Pending"

abbrev pub condition_type_identity_provider_valid : String
condition_type_identity_provider_valid = "Valid"

abbrev pub reason_identity_provider_valid : String
reason_identity_provider_valid = "Valid"

abbrev pub reason_identity_provider_invalid : String
reason_identity_provider_invalid = "Invalid"

abbrev pub condition_type_permission_set_valid : String
condition_type_permission_set_valid = "PermissionSetValid"

abbrev pub reason_permission_set_valid : String
reason_permission_set_valid = "Valid"

abbrev pub reason_permission_set_invalid : String
reason_permission_set_invalid = "Invalid"

abbrev pub condition_type_rbac_policy_degraded : String
condition_type_rbac_policy_degraded = "RBACPolicyDegraded"

abbrev pub reason_validation_failed : String
reason_validation_failed = "ValidationFailed"

abbrev pub reason_policy_violation : String
reason_policy_violation = "PolicyViolation"

abbrev pub reason_structure_invalid : String
reason_structure_invalid = "StructureInvalid"

abbrev pub reason_policy_not_found : String
reason_policy_not_found = "PolicyNotFound"

abbrev pub reason_epg_pending : String
reason_epg_pending = "EPGPending"

abbrev pub condition_type_rbac_policy_valid : String
condition_type_rbac_policy_valid = "RBACPolicyValid"

abbrev pub reason_validation_passed : String
reason_validation_passed = "ValidationPassed"

abbrev pub condition_type_rbac_profile_policy_compliant : String
condition_type_rbac_profile_policy_compliant = "PolicyCompliant"

abbrev pub reason_bootstrap_profiles_ready : String
reason_bootstrap_profiles_ready = "BootstrapProfilesReady"

abbrev pub reason_bootstrap_profiles_pending : String
reason_bootstrap_profiles_pending = "BootstrapProfilesPending"

abbrev pub condition_type_rbac_profile_provisioned : String
condition_type_rbac_profile_provisioned = "Provisioned"

abbrev pub reason_provisioning_complete : String
reason_provisioning_complete = "ProvisioningComplete"

abbrev pub reason_provisioning_failed : String
reason_provisioning_failed = "ProvisioningFailed"

abbrev pub condition_type_rbac_profile_validated : String
condition_type_rbac_profile_validated = "ProfileValidated"

abbrev pub condition_type_webhook_registered : String
condition_type_webhook_registered = "WebhookRegistered"

abbrev pub reason_webhook_registered : String
reason_webhook_registered = "WebhookRegistered"

abbrev pub condition_type_permission_snapshot_fresh : String
condition_type_permission_snapshot_fresh = "Fresh"

abbrev pub reason_snapshot_fresh : String
reason_snapshot_fresh = "SnapshotFresh"

abbrev pub reason_snapshot_stale : String
reason_snapshot_stale = "SnapshotStale"

abbrev pub condition_type_permission_snapshot_compliant : String
condition_type_permission_snapshot_compliant = "Compliant"

abbrev pub reason_drift_absent : String
reason_drift_absent = "DriftAbsent"
