-- ===== src/Conditions/Constants/Wrapper.antt =====
-- pkg/conditions/conditions.go: the conditions of Wrapper.
use Prim.Native.String.{String}

abbrev pub condition_type_cluster_pack_available : String
condition_type_cluster_pack_available = "Available"

abbrev pub reason_pack_available : String
reason_pack_available = "PackAvailable"

abbrev pub reason_pack_signature_pending : String
reason_pack_signature_pending = "SignaturePending"

abbrev pub condition_type_cluster_pack_immutability_violation : String
condition_type_cluster_pack_immutability_violation = "ImmutabilityViolation"

abbrev pub reason_immutability_violation : String
reason_immutability_violation = "ImmutabilityViolation"

abbrev pub condition_type_cluster_pack_revoked : String
condition_type_cluster_pack_revoked = "Revoked"

abbrev pub reason_pack_revoked : String
reason_pack_revoked = "PackRevoked"

abbrev pub condition_type_cluster_pack_signature_pending : String
condition_type_cluster_pack_signature_pending = "SignaturePending"

abbrev pub reason_pack_signed : String
reason_pack_signed = "PackSigned"

abbrev pub condition_type_pack_execution_waiting : String
condition_type_pack_execution_waiting = "Waiting"

abbrev pub condition_type_pack_signature_pending : String
condition_type_pack_signature_pending = "PackSignaturePending"

abbrev pub condition_type_pack_revoked : String
condition_type_pack_revoked = "PackRevoked"

abbrev pub reason_cluster_pack_revoked : String
reason_cluster_pack_revoked = "ClusterPackRevoked"

abbrev pub condition_type_permission_snapshot_out_of_sync : String
condition_type_permission_snapshot_out_of_sync = "PermissionSnapshotOutOfSync"

abbrev pub reason_snapshot_out_of_sync : String
reason_snapshot_out_of_sync = "SnapshotOutOfSync"

abbrev pub condition_type_rbac_profile_not_provisioned : String
condition_type_rbac_profile_not_provisioned = "RBACProfileNotProvisioned"

abbrev pub reason_rbac_profile_not_ready : String
reason_rbac_profile_not_ready = "RBACProfileNotProvisioned"

abbrev pub condition_type_wrapper_runner_rbac_not_ready : String
condition_type_wrapper_runner_rbac_not_ready = "WrapperRunnerRBACNotReady"

abbrev pub reason_wrapper_runner_rbac_not_ready : String
reason_wrapper_runner_rbac_not_ready = "WrapperRunnerRBACNotReady"

abbrev pub condition_type_pack_execution_failed : String
condition_type_pack_execution_failed = "Failed"

abbrev pub reason_operation_result_not_found : String
reason_operation_result_not_found = "OperationResultNotFound"

abbrev pub condition_type_pack_execution_succeeded : String
condition_type_pack_execution_succeeded = "Succeeded"

abbrev pub condition_type_pack_instance_ready : String
condition_type_pack_instance_ready = "Ready"

abbrev pub reason_awaiting_delivery : String
reason_awaiting_delivery = "AwaitingDelivery"

abbrev pub condition_type_pack_instance_dependency_blocked : String
condition_type_pack_instance_dependency_blocked = "DependencyBlocked"

abbrev pub reason_dependency_drifted : String
reason_dependency_drifted = "DependencyDrifted"

abbrev pub condition_type_pack_instance_drifted : String
condition_type_pack_instance_drifted = "Drifted"

abbrev pub reason_drift_detected : String
reason_drift_detected = "DriftDetected"

abbrev pub reason_no_drift : String
reason_no_drift = "NoDrift"

abbrev pub condition_type_pack_instance_progressing : String
condition_type_pack_instance_progressing = "Progressing"

abbrev pub reason_pack_delivered : String
reason_pack_delivered = "PackDelivered"

abbrev pub reason_pack_receipt_not_found : String
reason_pack_receipt_not_found = "PackReceiptNotFound"

abbrev pub condition_type_pack_instance_security_violation : String
condition_type_pack_instance_security_violation = "SecurityViolation"

abbrev pub reason_signature_verify_failed : String
reason_signature_verify_failed = "SignatureVerifyFailed"

abbrev pub reason_security_violation_cleared : String
reason_security_violation_cleared = "SecurityViolationCleared"
