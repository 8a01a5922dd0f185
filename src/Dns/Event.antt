-- ===== src/Dns/Event.antt =====
-- internal/dns/event.go and internal/dns/sink_registry.go: events, and their fan-out to sinks.
use seam_core.Prelude.{ℕ, suc, String, List, [], ◌∷◌}

abbrev pub record_category_cluster_topology : String
record_category_cluster_topology = "cluster-topology"

abbrev pub record_category_identity_plane : String
record_category_identity_plane = "identity-plane"

abbrev pub record_category_pack_lineage : String
record_category_pack_lineage = "pack-lineage"

abbrev pub record_category_execution_authority : String
record_category_execution_authority = "execution-authority"

abbrev pub severity_informational : String
severity_informational = "informational"

abbrev pub severity_warning : String
severity_warning = "warning"

abbrev pub severity_critical : String
severity_critical = "critical"

abbrev pub operation_created : String
operation_created = "created"

abbrev pub operation_updated : String
operation_updated = "updated"

abbrev pub operation_deleted : String
operation_deleted = "deleted"

pub record SourceRef : Type 0 where
  pub group : String
  pub version : String
  pub kind : String
  pub name : String
  pub namespace : String

pub record DsnsEvent : Type 0 where
  pub record_category : String
  pub operation : String
  pub source_ref : SourceRef
  pub cluster_context : String
  pub derived_records : List String
  pub severity : String

-- A goroutine that `Notify` starts: the sink, its index in the registry, the event, and the
-- seconds after which its context ends. What the sink answers is only logged.
pub record Delivery (Sink : Type 0) : Type 0 where
  pub index : ℕ
  pub sink : Sink
  pub event : DsnsEvent
  pub timeout : ℕ

abbrev pub sink_timeout : ℕ
sink_timeout = 5

unfoldable pub deliveries : {Sink : Type 0} → ℕ → DsnsEvent → List Sink → List (Delivery Sink)
deliveries i event [] = []
deliveries i event (s ∷ ss) =
    record { index = i; sink = s; event = event; timeout = sink_timeout }
    ∷ deliveries (suc i) event ss

-- The goroutines started by one call; the call itself returns nil.
unfoldable pub notify : {Sink : Type 0} → List Sink → DsnsEvent → List (Delivery Sink)
unfolding deliveries
notify sinks event = deliveries 0 event sinks
