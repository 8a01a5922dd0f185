-- ===== src/Conditions/Constants/Bootstrap.antt =====
-- pkg/conditions/conditions.go: the conditions of Platform clusters, from bootstrapping on.
use Prim.Native.String.{String}

abbrev pub reason_awaiting_conductor_ready : String
reason_awaiting_conductor_ready = "AwaitingConductorReady"

abbrev pub condition_type_bootstrapping : String
condition_type_bootstrapping = "Bootstrapping"

abbrev pub reason_bootstrap_job_submitted : String
reason_bootstrap_job_submitted = "BootstrapJobSubmitted"

abbrev pub reason_bootstrap_job_complete : String
reason_bootstrap_job_complete = "BootstrapJobComplete"

abbrev pub reason_capi_objects_created : String
reason_capi_objects_created = "CAPIObjectsCreated"

abbrev pub condition_type_importing : String
condition_type_importing = "Importing"

abbrev pub reason_import_complete : String
reason_import_complete = "ImportComplete"

abbrev pub condition_type_cilium_pending : String
condition_type_cilium_pending = "CiliumPending"

abbrev pub reason_cilium_pack_pending : String
reason_cilium_pack_pending = "CiliumPackPending"

abbrev pub reason_cilium_pack_ready : String
reason_cilium_pack_ready = "CiliumPackReady"

abbrev pub condition_type_control_plane_unreachable : String
condition_type_control_plane_unreachable = "ControlPlaneUnreachable"

abbrev pub reason_control_plane_node_unreachable : String
reason_control_plane_node_unreachable = "ControlPlaneNodeUnreachable"

abbrev pub condition_type_partial_worker_availability : String
condition_type_partial_worker_availability = "PartialWorkerAvailability"

abbrev pub reason_worker_node_unreachable : String
reason_worker_node_unreachable = "WorkerNodeUnreachable"

abbrev pub condition_type_conductor_ready : String
condition_type_conductor_ready = "ConductorReady"

abbrev pub reason_conductor_bootstrap_complete : String
reason_conductor_bootstrap_complete = "ConductorBootstrapComplete"

abbrev pub reason_conductor_bootstrap_pending : String
reason_conductor_bootstrap_pending = "ConductorBootstrapPending"

abbrev pub reason_conductor_deployment_available : String
reason_conductor_deployment_available = "ConductorDeploymentAvailable"

abbrev pub reason_conductor_deployment_unavailable : String
reason_conductor_deployment_unavailable = "ConductorDeploymentUnavailable"

abbrev pub condition_type_bootstrapped : String
condition_type_bootstrapped = "Bootstrapped"

abbrev pub condition_type_screen_provider_not_implemented : String
condition_type_screen_provider_not_implemented = "ScreenProviderNotImplemented"

abbrev pub condition_type_phase_failed : String
condition_type_phase_failed = "PhaseFailed"

abbrev pub condition_type_kubeconfig_unavailable : String
condition_type_kubeconfig_unavailable = "KubeconfigUnavailable"

abbrev pub reason_screen_not_implemented : String
reason_screen_not_implemented = "ScreenNotImplemented"

abbrev pub reason_talos_version_required : String
reason_talos_version_required = "TalosVersionRequired"

abbrev pub reason_talosconfig_secret_absent : String
reason_talosconfig_secret_absent = "TalosConfigSecretAbsent"
