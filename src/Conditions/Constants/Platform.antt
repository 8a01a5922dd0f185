-- ===== src/Conditions/Constants/Platform.antt =====
-- pkg/conditions/conditions.go: the conditions of Platform clusters.
use Prim.Native.String.{String}

abbrev pub condition_type_ready : String
condition_type_ready = "Ready"

abbrev pub condition_type_etcd_maintenance_ready : String
condition_type_etcd_maintenance_ready = condition_type_ready

abbrev pub condition_type_node_maintenance_ready : String
condition_type_node_maintenance_ready = condition_type_ready

abbrev pub condition_type_pki_rotation_ready : String
condition_type_pki_rotation_ready = condition_type_ready

abbrev pub condition_type_reset_ready : String
condition_type_reset_ready = condition_type_ready

abbrev pub condition_type_upgrade_policy_ready : String
condition_type_upgrade_policy_ready = condition_type_ready

abbrev pub condition_type_node_operation_ready : String
condition_type_node_operation_ready = condition_type_ready

abbrev pub condition_type_maintenance_bundle_ready : String
condition_type_maintenance_bundle_ready = condition_type_ready

abbrev pub reason_cluster_ready : String
reason_cluster_ready = "ClusterReady"

abbrev pub reason_capi_cluster_running : String
reason_capi_cluster_running = "CAPIClusterRunning"

abbrev pub reason_job_complete : String
reason_job_complete = "JobComplete"

abbrev pub reason_etcd_job_complete : String
reason_etcd_job_complete = reason_job_complete

abbrev pub reason_node_job_complete : String
reason_node_job_complete = reason_job_complete

abbrev pub reason_pki_job_complete : String
reason_pki_job_complete = reason_job_complete

abbrev pub reason_reset_job_complete : String
reason_reset_job_complete = reason_job_complete

abbrev pub reason_upgrade_job_complete : String
reason_upgrade_job_complete = reason_job_complete

abbrev pub reason_node_op_job_complete : String
reason_node_op_job_complete = reason_job_complete

abbrev pub reason_maintenance_bundle_job_complete : String
reason_maintenance_bundle_job_complete = reason_job_complete

abbrev pub reason_reset_complete : String
reason_reset_complete = "ResetComplete"

abbrev pub reason_all_control_plane_machines_ready : String
reason_all_control_plane_machines_ready = "AllControlPlaneMachinesReady"

abbrev pub reason_pack_receipt_ready : String
reason_pack_receipt_ready = "PackReceiptReady"

abbrev pub condition_type_degraded : String
condition_type_degraded = "Degraded"

abbrev pub condition_type_etcd_maintenance_degraded : String
condition_type_etcd_maintenance_degraded = condition_type_degraded

abbrev pub condition_type_node_maintenance_degraded : String
condition_type_node_maintenance_degraded = condition_type_degraded

abbrev pub condition_type_pki_rotation_degraded : String
condition_type_pki_rotation_degraded = condition_type_degraded

abbrev pub condition_type_reset_degraded : String
condition_type_reset_degraded = condition_type_degraded

abbrev pub condition_type_upgrade_policy_degraded : String
condition_type_upgrade_policy_degraded = condition_type_degraded

abbrev pub condition_type_node_operation_degraded : String
condition_type_node_operation_degraded = condition_type_degraded

abbrev pub condition_type_maintenance_bundle_degraded : String
condition_type_maintenance_bundle_degraded = condition_type_degraded

abbrev pub reason_degraded : String
reason_degraded = "Degraded"

abbrev pub reason_bootstrap_job_failed : String
reason_bootstrap_job_failed = "BootstrapJobFailed"

abbrev pub reason_conductor_job_gate_blocked : String
reason_conductor_job_gate_blocked = "ConductorJobGateBlocked"

abbrev pub reason_job_failed : String
reason_job_failed = "JobFailed"

abbrev pub reason_etcd_job_failed : String
reason_etcd_job_failed = reason_job_failed

abbrev pub reason_node_job_failed : String
reason_node_job_failed = reason_job_failed

abbrev pub reason_pki_job_failed : String
reason_pki_job_failed = reason_job_failed

abbrev pub reason_reset_job_failed : String
reason_reset_job_failed = reason_job_failed

abbrev pub reason_upgrade_job_failed : String
reason_upgrade_job_failed = reason_job_failed

abbrev pub reason_node_op_job_failed : String
reason_node_op_job_failed = reason_job_failed

abbrev pub reason_maintenance_bundle_job_failed : String
reason_maintenance_bundle_job_failed = reason_job_failed

abbrev pub reason_capability_unknown : String
reason_capability_unknown = "CapabilityUnknown"

abbrev pub reason_maintenance_bundle_capability_unknown : String
reason_maintenance_bundle_capability_unknown = reason_capability_unknown

abbrev pub reason_reconciler_not_implemented : String
reason_reconciler_not_implemented = "ReconcilerNotImplemented"

abbrev pub reason_maintenance_bundle_reconciler_not_implemented : String
reason_maintenance_bundle_reconciler_not_implemented = reason_reconciler_not_implemented

abbrev pub reason_s3_destination_absent : String
reason_s3_destination_absent = "S3DestinationAbsent"

abbrev pub reason_etcd_backup_destination_absent : String
reason_etcd_backup_destination_absent = reason_s3_destination_absent

abbrev pub condition_type_running : String
condition_type_running = "Running"

abbrev pub condition_type_etcd_maintenance_running : String
condition_type_etcd_maintenance_running = condition_type_running

abbrev pub condition_type_pack_execution_running : String
condition_type_pack_execution_running = condition_type_running

abbrev pub reason_job_submitted : String
reason_job_submitted = "JobSubmitted"

abbrev pub reason_etcd_job_submitted : String
reason_etcd_job_submitted = reason_job_submitted

abbrev pub reason_maintenance_bundle_job_submitted : String
reason_maintenance_bundle_job_submitted = reason_job_submitted

abbrev pub reason_node_job_submitted : String
reason_node_job_submitted = reason_job_submitted

abbrev pub reason_pki_job_submitted : String
reason_pki_job_submitted = reason_job_submitted

abbrev pub reason_reset_job_submitted : String
reason_reset_job_submitted = reason_job_submitted

abbrev pub reason_upgrade_job_submitted : String
reason_upgrade_job_submitted = reason_job_submitted

abbrev pub reason_node_op_job_submitted : String
reason_node_op_job_submitted = reason_job_submitted

abbrev pub reason_job_succeeded : String
reason_job_succeeded = "JobSucceeded"

abbrev pub condition_type_pending : String
condition_type_pending = "Pending"

abbrev pub condition_type_maintenance_bundle_pending : String
condition_type_maintenance_bundle_pending = condition_type_pending

abbrev pub condition_type_pack_execution_pending : String
condition_type_pack_execution_pending = condition_type_pending

abbrev pub reason_pending : String
reason_pending = "Pending"

abbrev pub reason_etcd_operation_pending : String
reason_etcd_operation_pending = reason_pending

abbrev pub reason_maintenance_bundle_pending : String
reason_maintenance_bundle_pending = reason_pending

abbrev pub reason_node_operation_pending : String
reason_node_operation_pending = reason_pending

abbrev pub reason_node_op_pending : String
reason_node_op_pending = reason_pending

abbrev pub reason_pki_operation_pending : String
reason_pki_operation_pending = reason_pending

abbrev pub reason_upgrade_operation_pending : String
reason_upgrade_operation_pending = reason_pending

abbrev pub reason_gates_clearing : String
reason_gates_clearing = "GatesClearing"

abbrev pub reason_awaiting_signature : String
reason_awaiting_signature = "AwaitingSignature"
