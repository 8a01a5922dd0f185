-- ===== src/Process.antt =====
-- cmd/seam-core/main.go, internal/webhook/server.go and the `SetupWithManager` of each reconciler:
-- the start of the process. The manager of controller-runtime is a parameter.
pub mod Running
pub mod Wiring
pub mod Names
pub mod Startup
pub mod Unchecked
mod Tests
use seam_core.Prelude.{ℕ, String, Bool, true, List, [], ◌∷◌, ◌==◌, if◌then◌else◌, to_lower, ◌⊕◌}
use seam_core.Kube.Object.{GroupVersionKind}
use seam_core.Kube.Client.{Result, ok, err, Api, pure, raise, try_or, on_result, within, ◌>>◌}
use seam_core.Dns.Zone.{record_type_a, record_type_txt}
use seam_core.Dns.State.{DsnsState, new_dsns_state, set_sinks, set_static_record}
use seam_core.Dns.Derive.{bare_record}
use seam_core.Lineage.Registry.{derived_object_gvks}
use seam_core.Lineage.Names.{root_declaration_gvks}

abbrev pub root_binding_webhook_path : String
root_binding_webhook_path = "/validate-lineage-index-immutability"

abbrev pub authorship_webhook_path : String
authorship_webhook_path = "/validate-lineage-index-authorship"

abbrev pub domain_ref_webhook_path : String
domain_ref_webhook_path = "/validate-lineage-index-domainref"

abbrev infrastructure : String → GroupVersionKind
infrastructure kind = record {
  group = "infrastructure.ontai.dev";
  version = "v1alpha1";
  kind = kind;
}

abbrev security : String → GroupVersionKind
security kind = record { group = "security.ontai.dev"; version = "v1alpha1"; kind = kind }

abbrev pub dsns_gvks : List GroupVersionKind
dsns_gvks =
    infrastructure "InfrastructureTalosCluster"
    ∷ infrastructure "InfrastructurePackInstance"
    ∷ security "IdentityBinding"
    ∷ security "IdentityProvider"
    ∷ infrastructure "InfrastructureRunnerConfig"
    ∷ []

-- The handlers that the webhook server is given.
pub data Handler : Type 0 where
  root_binding_immutability authorship_gate domain_ref_validation : Handler

-- The reconcilers that the manager is given, with their fields; the client and the scheme are the
-- manager's.
pub data Controller (Sink : Type 0) : Type 0 where
  lineage_reconciler descendant_reconciler outcome_reconciler : GroupVersionKind → Controller Sink
  dsns_reconciler : GroupVersionKind → DsnsState Sink → String → Controller Sink

-- ctrl.Options
pub record ManagerOptions : Type 0 where
  pub metrics_bind_address : String
  pub health_probe_bind_address : String
  pub leader_election : Bool
  pub leader_election_id : String
  pub leader_election_namespace : String
  pub webhook_port : ℕ

-- The command line.
pub record Flags : Type 0 where
  pub metrics_addr : String
  pub health_probe_addr : String
  pub enable_leader_election : Bool
  pub webhook_port : ℕ

-- The manager. `complete name c` is `NewControllerManagedBy(mgr).Named(name).For(u).Complete(c)`,
-- and `register` is a call of the webhook server. `start` ends when the process is told to stop.
pub record Manager (Sink S : Type 0) : Type 0 where
  pub new_manager : ManagerOptions → Api S (Unit {0})
  pub complete : String → Controller Sink → Api S (Unit {0})
  pub register : String → Handler → S → S
  pub add_healthz_check : String → Api S (Unit {0})
  pub add_readyz_check : String → Api S (Unit {0})
  pub start : Api S (Unit {0})

-- The defaults of the flags, by METRICS_ADDR.
unfoldable pub default_flags : String → Flags
default_flags metrics_env = record {
  metrics_addr = if metrics_env == "" then ":8080" else metrics_env;
  health_probe_addr = ":8081";
  enable_leader_election = true;
  webhook_port = 9443;
}

unfoldable pub manager_options : Flags → ManagerOptions
manager_options flags = record {
  metrics_bind_address = flags.metrics_addr;
  health_probe_bind_address = flags.health_probe_addr;
  leader_election = flags.enable_leader_election;
  leader_election_id = "seam-core-leader";
  leader_election_namespace = "seam-system";
  webhook_port = flags.webhook_port;
}

module _ {Sink S : Type 0} (mgr : Manager Sink S) where
  -- LineageReconciler.SetupWithManager, and those of the other reconcilers
  unfoldable pub setup_lineage : GroupVersionKind → Api S (Unit {0})
  setup_lineage gvk = mgr.complete ("lineage-" ⊕ to_lower gvk.kind) (lineage_reconciler gvk)

  unfoldable pub setup_descendant : GroupVersionKind → Api S (Unit {0})
  setup_descendant gvk =
      mgr.complete ("descendant-" ⊕ to_lower gvk.kind) (descendant_reconciler gvk)

  unfoldable pub setup_outcome : GroupVersionKind → Api S (Unit {0})
  setup_outcome gvk = mgr.complete ("outcome-" ⊕ to_lower gvk.kind) (outcome_reconciler gvk)

  unfoldable pub setup_dsns : DsnsState Sink → String → GroupVersionKind → Api S (Unit {0})
  setup_dsns state ip gvk =
      mgr.complete ("dsns-" ⊕ to_lower gvk.kind) (dsns_reconciler gvk state ip)

  -- Calls of the webhook server return nothing.
  unfoldable pub register_immutability : Api S (Unit {0})
  register_immutability s =
      (ok tt, mgr.register root_binding_webhook_path root_binding_immutability s)

  unfoldable pub register_authorship : Api S (Unit {0})
  register_authorship s = (ok tt, mgr.register authorship_webhook_path authorship_gate s)

  unfoldable pub register_domain_ref : Api S (Unit {0})
  register_domain_ref s = (ok tt, mgr.register domain_ref_webhook_path domain_ref_validation s)

  unfoldable pub setup_webhooks : Api S (Unit {0})
  unfolding register_immutability register_authorship
  setup_webhooks = register_immutability >> register_authorship

  unfoldable pub setup_checks : Api S (Unit {0})
  setup_checks =
      within "unable to set up health check" (mgr.add_healthz_check "healthz")
      >> within "unable to set up ready check" (mgr.add_readyz_check "readyz")

-- A static record, where its variable is set.
unfoldable pub seed : {Sink : Type 0} → String → String → String → DsnsState Sink → DsnsState Sink
seed name rtype value s =
    if value == "" then s else set_static_record s (bare_record name rtype value)

-- The state that the DSNS reconcilers share, by CONDUCTOR_SIGNING_KEY_FINGERPRINT and
-- DSNS_SERVICE_IP.
unfoldable pub initial_dsns_state : {Sink : Type 0} → String → String → DsnsState Sink
unfolding seed
initial_dsns_state fingerprint dsns_ip =
    seed "ns" record_type_a dsns_ip
      (seed "authority.conductor" record_type_txt fingerprint (set_sinks new_dsns_state []))

-- `for _, x := range xs { if err := f(x); err != nil { exit } }`
unfoldable pub each : {A S : Type 0} → (A → Api S (Unit {0})) → List A → Api S (Unit {0})
each f [] = pure tt
each f (x ∷ xs) = f x >> each f xs

module _ {Sink S : Type 0} (mgr : Manager Sink S) (getenv : String → String) where
  unfoldable pub start_lineage : GroupVersionKind → Api S (Unit {0})
  unfolding setup_lineage
  start_lineage gvk = within "unable to create LineageReconciler" (setup_lineage mgr gvk)

  unfoldable pub start_descendant : GroupVersionKind → Api S (Unit {0})
  unfolding setup_descendant
  start_descendant gvk = within "unable to create DescendantReconciler" (setup_descendant mgr gvk)

  unfoldable pub start_dsns : GroupVersionKind → Api S (Unit {0})
  unfolding setup_dsns initial_dsns_state
  start_dsns gvk = within "unable to create DSNSReconciler" (
      setup_dsns mgr
        (initial_dsns_state (getenv "CONDUCTOR_SIGNING_KEY_FINGERPRINT") (getenv "DSNS_SERVICE_IP"))
        (getenv "DSNS_SERVICE_IP") gvk)

  unfoldable pub setup_controllers : Api S (Unit {0})
  unfolding each start_lineage start_descendant start_dsns
  setup_controllers =
      each start_lineage root_declaration_gvks
      >> each start_descendant derived_object_gvks
      >> each start_dsns dsns_gvks

  -- `main`; `parse` is what the command line makes of the defaults of the flags. An error is
  -- logged, and the process exits with status 1.
  unfoldable pub main : (Flags → Flags) → Api S (Unit {0})
  unfolding default_flags manager_options setup_controllers setup_webhooks setup_checks
  main parse =
      within "unable to start manager"
        (mgr.new_manager (manager_options (parse (default_flags (getenv "METRICS_ADDR")))))
      >> setup_controllers
      >> setup_webhooks mgr
      >> setup_checks mgr
      >> within "problem running manager" mgr.start
