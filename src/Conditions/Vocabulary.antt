-- ===== src/Conditions/Vocabulary.antt =====
-- The vocabulary of pkg/conditions/validate.go: the reasons of each condition type.
use seam_core.Prelude.{String, List, [], ◌∷◌, ◌++◌, map, Dict, put}
use seam_core.Conditions.Constants.{
  condition_type_bootstrap_label_absent, condition_type_bootstrapping,
  condition_type_cilium_pending, condition_type_cluster_maintenance_paused,
  condition_type_cluster_maintenance_window_active, condition_type_cluster_pack_available,
  condition_type_cluster_pack_immutability_violation, condition_type_cluster_pack_revoked,
  condition_type_cluster_pack_signature_pending, condition_type_conductor_ready,
  condition_type_control_plane_unreachable, condition_type_degraded,
  condition_type_identity_binding_trust_anchor_resolved, condition_type_identity_binding_valid,
  condition_type_identity_provider_reachable, condition_type_identity_provider_valid,
  condition_type_importing, condition_type_infrastructure_ready, condition_type_lineage_synced,
  condition_type_machine_ready, condition_type_node_operation_capi_delegated,
  condition_type_pack_execution_failed, condition_type_pack_execution_succeeded,
  condition_type_pack_execution_waiting, condition_type_pack_instance_dependency_blocked,
  condition_type_pack_instance_drifted, condition_type_pack_instance_progressing,
  condition_type_pack_instance_security_violation, condition_type_pack_revoked,
  condition_type_pack_signature_pending, condition_type_partial_worker_availability,
  condition_type_pending, condition_type_permission_set_valid,
  condition_type_permission_snapshot_compliant, condition_type_permission_snapshot_fresh,
  condition_type_permission_snapshot_out_of_sync, condition_type_port_reachable,
  condition_type_rbac_policy_degraded, condition_type_rbac_policy_valid,
  condition_type_rbac_profile_not_provisioned, condition_type_rbac_profile_policy_compliant,
  condition_type_rbac_profile_provisioned, condition_type_rbac_profile_validated,
  condition_type_ready, condition_type_reset_pending_approval, condition_type_running,
  condition_type_webhook_registered, condition_type_wrapper_runner_rbac_not_ready,
  etcd_backup_destination_absent, reason_all_control_plane_machines_ready, reason_approval_required,
  reason_awaiting_conductor_ready, reason_awaiting_signature, reason_bootstrap_data_not_ready,
  reason_bootstrap_job_complete, reason_bootstrap_job_failed, reason_bootstrap_job_submitted,
  reason_bootstrap_profiles_pending, reason_bootstrap_profiles_ready, reason_capability_unknown,
  reason_capi_cluster_running, reason_capi_machine_not_bound, reason_capi_objects_created,
  reason_capi_paused, reason_capi_resumed, reason_cilium_pack_pending, reason_cilium_pack_ready,
  reason_cluster_pack_revoked, reason_cluster_ready, reason_conductor_bootstrap_complete,
  reason_conductor_bootstrap_pending, reason_conductor_job_gate_blocked,
  reason_control_plane_machines_not_ready, reason_control_plane_machines_pending,
  reason_control_plane_node_unreachable, reason_degraded, reason_dependency_drifted,
  reason_drift_absent, reason_drift_detected, reason_epg_pending, reason_gates_clearing,
  reason_identity_binding_invalid, reason_identity_binding_valid, reason_identity_provider_invalid,
  reason_identity_provider_pending, reason_identity_provider_reachable,
  reason_identity_provider_unreachable, reason_identity_provider_valid,
  reason_immutability_violation, reason_import_complete, reason_job_complete, reason_job_failed,
  reason_job_submitted, reason_job_succeeded, reason_label_absent, reason_label_present,
  reason_lineage_controller_absent, reason_machine_config_applied, reason_machine_config_failed,
  reason_machine_out_of_maintenance, reason_machine_ready, reason_maintenance_window_closed,
  reason_maintenance_window_open, reason_no_drift, reason_node_op_capi_delegated,
  reason_operation_result_not_found, reason_pack_available, reason_pack_delivered,
  reason_pack_receipt_not_found, reason_pack_receipt_ready, reason_pack_revoked,
  reason_pack_signature_pending, reason_pack_signed, reason_pending, reason_permission_set_invalid,
  reason_permission_set_missing, reason_permission_set_not_found, reason_permission_set_valid,
  reason_policy_not_found, reason_policy_violation, reason_port_unreachable,
  reason_provisioning_complete, reason_provisioning_failed, reason_rbac_profile_not_ready,
  reason_reconciler_not_implemented, reason_reset_complete, reason_s3_destination_absent,
  reason_security_violation_cleared, reason_signature_verify_failed, reason_snapshot_fresh,
  reason_snapshot_out_of_sync, reason_snapshot_stale, reason_structure_invalid,
  reason_token_ttl_exceeded, reason_trust_anchor_invalid, reason_trust_anchor_not_found,
  reason_trust_anchor_resolved, reason_trust_anchor_type_mismatch, reason_trust_method_mismatch,
  reason_validation_failed, reason_validation_passed, reason_webhook_registered,
  reason_worker_node_unreachable, reason_wrapper_runner_rbac_not_ready,
}

-- A set of texts is a map with nothing for values.
abbrev pub Set : Type 0
Set = Dict (Unit {0})

add_all : Set → List String → Set
unfolding put
add_all m [] = m
add_all m (r ∷ rs) = add_all (put m r tt) rs

unfoldable pub reasons : List String → Set
unfolding add_all
reasons rs = add_all [] rs

-- The rows of LineageSynced and of the Guardian operator.
abbrev pub shared_and_guardian_rows : Dict (List String)
shared_and_guardian_rows =
    (condition_type_lineage_synced, reason_lineage_controller_absent ∷ [])
    ∷ (condition_type_bootstrap_label_absent, reason_label_absent ∷ reason_label_present ∷ [])
    ∷ (
      condition_type_identity_binding_trust_anchor_resolved,
      reason_trust_anchor_resolved ∷ reason_trust_anchor_not_found ∷ reason_trust_anchor_invalid
          ∷ reason_trust_anchor_type_mismatch ∷ reason_trust_method_mismatch ∷ [],
    )
    ∷ (
      condition_type_identity_binding_valid,
      reason_identity_binding_valid ∷ reason_identity_binding_invalid
          ∷ reason_permission_set_missing ∷ reason_permission_set_not_found
          ∷ reason_token_ttl_exceeded ∷ [],
    )
    ∷ (
      condition_type_identity_provider_reachable,
      reason_identity_provider_reachable ∷ reason_identity_provider_unreachable
          ∷ reason_identity_provider_pending ∷ [],
    )
    ∷ (
      condition_type_identity_provider_valid,
      reason_identity_provider_valid ∷ reason_identity_provider_invalid ∷ [],
    )
    ∷ (
      condition_type_permission_set_valid,
      reason_permission_set_valid ∷ reason_permission_set_invalid ∷ reason_permission_set_not_found
          ∷ [],
    )
    ∷ (
      condition_type_rbac_policy_degraded,
      reason_validation_failed ∷ reason_policy_violation ∷ reason_structure_invalid
          ∷ reason_policy_not_found ∷ reason_epg_pending ∷ [],
    )
    ∷ (condition_type_rbac_policy_valid, reason_validation_passed ∷ reason_validation_failed ∷ [])
    ∷ (
      condition_type_rbac_profile_policy_compliant,
      reason_bootstrap_profiles_ready ∷ reason_bootstrap_profiles_pending ∷ [],
    )
    ∷ (
      condition_type_rbac_profile_provisioned,
      reason_provisioning_complete ∷ reason_provisioning_failed ∷ [],
    )
    ∷ (
      condition_type_rbac_profile_validated,
      reason_validation_passed ∷ reason_validation_failed ∷ [],
    )
    ∷ (condition_type_webhook_registered, reason_webhook_registered ∷ [])
    ∷ (condition_type_permission_snapshot_fresh, reason_snapshot_fresh ∷ reason_snapshot_stale ∷ [])
    ∷ (
      condition_type_permission_snapshot_compliant,
      reason_drift_absent ∷ reason_drift_detected ∷ [],
    )
    ∷ []

-- The rows of the Platform operator.
abbrev pub platform_rows : Dict (List String)
platform_rows =
    (
      condition_type_ready,
      reason_cluster_ready ∷ reason_capi_cluster_running ∷ reason_job_complete
          ∷ reason_reset_complete ∷ reason_all_control_plane_machines_ready
          ∷ reason_pack_receipt_ready ∷ reason_pack_receipt_not_found
          ∷ reason_signature_verify_failed ∷ reason_dependency_drifted ∷ reason_drift_detected ∷ [],
    )
    ∷ (
      condition_type_degraded,
      reason_degraded ∷ reason_bootstrap_job_failed ∷ reason_conductor_job_gate_blocked
          ∷ reason_job_failed ∷ reason_capability_unknown ∷ reason_reconciler_not_implemented
          ∷ reason_s3_destination_absent ∷ [],
    )
    ∷ (
      condition_type_running,
      reason_job_submitted ∷ reason_job_failed ∷ reason_job_complete ∷ reason_job_succeeded ∷ [],
    )
    ∷ (
      condition_type_pending,
      reason_pending ∷ reason_job_submitted ∷ reason_job_failed ∷ reason_job_complete
          ∷ reason_capability_unknown ∷ reason_reconciler_not_implemented ∷ reason_gates_clearing
          ∷ reason_awaiting_signature ∷ reason_awaiting_conductor_ready ∷ [],
    )
    ∷ (
      condition_type_bootstrapping,
      reason_bootstrap_job_submitted ∷ reason_bootstrap_job_complete ∷ reason_bootstrap_job_failed
          ∷ reason_capi_objects_created ∷ reason_capi_cluster_running ∷ [],
    )
    ∷ (condition_type_importing, reason_import_complete ∷ [])
    ∷ (condition_type_cilium_pending, reason_cilium_pack_pending ∷ reason_cilium_pack_ready ∷ [])
    ∷ (condition_type_control_plane_unreachable, reason_control_plane_node_unreachable ∷ [])
    ∷ (condition_type_partial_worker_availability, reason_worker_node_unreachable ∷ [])
    ∷ (
      condition_type_conductor_ready,
      reason_conductor_bootstrap_complete ∷ reason_conductor_bootstrap_pending ∷ [],
    )
    ∷ (
      condition_type_cluster_maintenance_paused,
      reason_capi_paused ∷ reason_capi_resumed ∷ reason_conductor_job_gate_blocked ∷ [],
    )
    ∷ (
      condition_type_cluster_maintenance_window_active,
      reason_maintenance_window_open ∷ reason_maintenance_window_closed ∷ [],
    )
    ∷ (condition_type_node_operation_capi_delegated, reason_node_op_capi_delegated ∷ [])
    ∷ (condition_type_reset_pending_approval, reason_approval_required ∷ [])
    ∷ (etcd_backup_destination_absent, reason_s3_destination_absent ∷ [])
    ∷ (
      condition_type_infrastructure_ready,
      reason_all_control_plane_machines_ready ∷ reason_control_plane_machines_not_ready
          ∷ reason_control_plane_machines_pending ∷ [],
    )
    ∷ (
      condition_type_machine_ready,
      reason_machine_ready ∷ reason_machine_config_applied ∷ reason_machine_config_failed
          ∷ reason_bootstrap_data_not_ready ∷ reason_capi_machine_not_bound
          ∷ reason_machine_out_of_maintenance ∷ [],
    )
    ∷ (condition_type_port_reachable, reason_port_unreachable ∷ [])
    ∷ []

-- The rows of the Wrapper operator, and those after them.
abbrev pub wrapper_rows : Dict (List String)
wrapper_rows =
    (
      condition_type_cluster_pack_available,
      reason_pack_available ∷ reason_pack_signature_pending ∷ reason_pack_signed ∷ [],
    )
    ∷ (condition_type_cluster_pack_immutability_violation, reason_immutability_violation ∷ [])
    ∷ (condition_type_cluster_pack_revoked, reason_pack_revoked ∷ [])
    ∷ (
      condition_type_cluster_pack_signature_pending,
      reason_pack_signature_pending ∷ reason_pack_signed ∷ [],
    )
    ∷ (condition_type_pack_execution_waiting, reason_awaiting_conductor_ready ∷ [])
    ∷ (condition_type_pack_signature_pending, reason_awaiting_signature ∷ reason_pack_signed ∷ [])
    ∷ (condition_type_pack_revoked, reason_cluster_pack_revoked ∷ [])
    ∷ (condition_type_permission_snapshot_out_of_sync, reason_snapshot_out_of_sync ∷ [])
    ∷ (condition_type_rbac_profile_not_provisioned, reason_rbac_profile_not_ready ∷ [])
    ∷ (condition_type_wrapper_runner_rbac_not_ready, reason_wrapper_runner_rbac_not_ready ∷ [])
    ∷ (
      condition_type_pack_execution_failed,
      reason_job_failed ∷ reason_operation_result_not_found ∷ [],
    )
    ∷ (condition_type_pack_execution_succeeded, reason_job_succeeded ∷ [])
    ∷ (condition_type_pack_instance_dependency_blocked, reason_dependency_drifted ∷ [])
    ∷ (condition_type_pack_instance_drifted, reason_drift_detected ∷ reason_no_drift ∷ [])
    ∷ (
      condition_type_pack_instance_progressing,
      reason_pack_delivered ∷ reason_pack_receipt_not_found ∷ [],
    )
    ∷ (
      condition_type_pack_instance_security_violation,
      reason_signature_verify_failed ∷ reason_security_violation_cleared ∷ [],
    )
    ∷ []

unfoldable pub vocabulary : Dict Set
unfolding reasons
vocabulary =
    map (λ (row : String × List String). (row.0, reasons row.1))
      (shared_and_guardian_rows ++ platform_rows ++ wrapper_rows)
