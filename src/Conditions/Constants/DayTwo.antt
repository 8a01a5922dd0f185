-- ===== src/Conditions/Constants/DayTwo.antt =====
-- pkg/conditions/conditions.go: the maintenance, day-2 and CAPI conditions of Platform.
use Prim.Native.String.{String}

abbrev pub condition_type_cluster_maintenance_paused : String
condition_type_cluster_maintenance_paused = "Paused"

abbrev pub reason_capi_paused : String
reason_capi_paused = "CAPIPaused"

abbrev pub reason_capi_resumed : String
reason_capi_resumed = "CAPIResumed"

abbrev pub condition_type_cluster_maintenance_window_active : String
condition_type_cluster_maintenance_window_active = "WindowActive"

abbrev pub reason_maintenance_window_open : String
reason_maintenance_window_open = "MaintenanceWindowOpen"

abbrev pub reason_maintenance_window_closed : String
reason_maintenance_window_closed = "MaintenanceWindowClosed"

abbrev pub condition_type_node_operation_capi_delegated : String
condition_type_node_operation_capi_delegated = "CAPIDelegated"

abbrev pub condition_type_upgrade_policy_capi_delegated : String
condition_type_upgrade_policy_capi_delegated = condition_type_node_operation_capi_delegated

abbrev pub reason_node_op_capi_delegated : String
reason_node_op_capi_delegated = "CAPIDelegated"

abbrev pub reason_upgrade_capi_delegated : String
reason_upgrade_capi_delegated = reason_node_op_capi_delegated

abbrev pub condition_type_reset_pending_approval : String
condition_type_reset_pending_approval = "PendingApproval"

abbrev pub reason_approval_required : String
reason_approval_required = "ApprovalRequired"

abbrev pub etcd_backup_destination_absent : String
etcd_backup_destination_absent = "EtcdBackupDestinationAbsent"

abbrev pub reason_capi_cluster_deleting : String
reason_capi_cluster_deleting = "CAPIClusterDeleting"

abbrev pub reason_capi_cluster_drained : String
reason_capi_cluster_drained = "CAPIClusterDrained"

abbrev pub condition_type_infrastructure_ready : String
condition_type_infrastructure_ready = "InfrastructureReady"

abbrev pub reason_control_plane_machines_not_ready : String
reason_control_plane_machines_not_ready = "ControlPlaneMachinesNotReady"

abbrev pub reason_control_plane_machines_pending : String
reason_control_plane_machines_pending = "ControlPlaneMachinesPending"

abbrev pub condition_type_machine_ready : String
condition_type_machine_ready = "MachineReady"

abbrev pub reason_machine_ready : String
reason_machine_ready = "MachineReady"

abbrev pub reason_machine_config_applied : String
reason_machine_config_applied = "MachineConfigApplied"

abbrev pub reason_machine_config_failed : String
reason_machine_config_failed = "MachineConfigFailed"

abbrev pub reason_bootstrap_data_not_ready : String
reason_bootstrap_data_not_ready = "BootstrapDataNotReady"

abbrev pub reason_capi_machine_not_bound : String
reason_capi_machine_not_bound = "CAPIMachineNotBound"

abbrev pub reason_machine_out_of_maintenance : String
reason_machine_out_of_maintenance = "MachineOutOfMaintenance"

abbrev pub condition_type_port_reachable : String
condition_type_port_reachable = "PortReachable"

abbrev pub reason_port_unreachable : String
reason_port_unreachable = "PortUnreachable"
