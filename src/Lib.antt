-- ===== src/Lib.antt =====
-- Verification of seam-core, the controllers that several operators of a Kubernetes platform share.
--
-- The program's parts, and the files about them:
--
-- Kube: the API server as the reconcilers see it. Kube.Object is the part of an unstructured object
-- that the code reads, with lookups that fail as the Go map lookups do. Kube.Client is the client
-- with its errors: a call takes the state outside the process and gives a result with the next state,
-- so that each handler is written in the order of its calls and early returns. Kube.Store says what
-- is relied on of a server that nobody else writes at the same time, and Kube.Memory is one;
-- Kube.Deletion adds that an update which takes the last finalizer from an object that is being
-- deleted removes the object.
--
-- Dns: internal/dns and internal/controller/dsns_reconciler.go, which keep the records of a DNS zone
-- in step with the objects of a cluster. Dns.Zone is zone.go with the text of the zone; Dns.State is
-- the registry of owners of state.go, one function for each method under its lock; Dns.Writer is
-- configmap.go; Dns.Event is event.go and sink_registry.go, where the goroutine of each sink is a
-- delivery that is counted and not run; Dns.Derive and Dns.Endpoint are the records of each kind;
-- Dns.Reconcile is Reconcile with its finalizer, its events and the glue record. The reconciler takes
-- the SHA-256 function as a field, since it is the Go library's.
--
-- Webhook: internal/webhook. Webhook.Decide is the three decisions, Webhook.Handler the handlers,
-- which take the decoding of JSON as a parameter; that DeepEqual decides equality of documents is a
-- named hypothesis of the theorems that need it.
--
-- Conditions: pkg/conditions. Conditions.Constants holds the constants, Conditions.Vocabulary the map
-- literal, Conditions.Validate the functions of validate.go, and Conditions.Update SetCondition and
-- FindCondition, where the write through a pointer is the new list.
--
-- Lineage: pkg/lineage, the lineage index of api/v1alpha1/infrastructurelineageindex_types.go, and
-- lineage_controller.go, descendant_reconciler.go and outcome_reconciler.go of internal/controller.
-- Lineage.Index has the types, Lineage.Labels the labels, Lineage.Registry the reconciler of
-- descendants, Lineage.Outcome that of outcomes, Lineage.Retention the pruning of descendants,
-- Lineage.Synced the LineageSynced condition and Lineage.Control the reconciler of root declarations.
-- Lineage.System is the runs of all three, one after the other.
-- Times are natural numbers since the epoch; a duration is an integer of 64 bits that wraps around as
-- the Go multiplication does. The other files of a component's folder hold the proofs about it, under
-- the name of what they prove, and its concrete runs (Tests, Samples, Racing).
--
-- E2e: pkg/e2e, the helpers of the operators' end-to-end suites. E2e.Poller is poller.go, with what it
-- reads from an object in E2e.Reading and Go's text of a duration in E2e.Duration; E2e.Registry is
-- registry.go, with the requests in the module itself, the four transfers in Registry.Transfer and the
-- artifacts in Registry.Artifact; E2e.Namespace, E2e.Applier and E2e.Client are the files of those
-- names. The clock, the ticker, the context and the client of the cluster are the fields of Cluster;
-- HTTP, SHA-256 and the JSON of a manifest are those of RegistryClient; Registry.Server says what is
-- relied on of the registry.
--
-- Process: cmd/seam-core/main.go, internal/webhook/server.go and the SetupWithManager of each
-- reconciler. main is the sequence of its calls on a manager of controller-runtime, which is a
-- parameter; an error is what makes the process exit with status 1. Process.Running says what the
-- manager's calls register. The command line is a function on the defaults of the flags.
--
-- Recursion is on lists and texts, but for the loop of Poll, which is on fuel: a round waits for a tick,
-- and one round for each interval in the timeout and two more reach the deadline, as the theorem about
-- its termination says. Prelude has texts, maps as association lists, and sorting. Kube.Stable carries a
-- predicate through the calls of a handler.
--
-- Not modelled: the deep copies and the other types of api/v1alpha1, which have no behaviour of their
-- own; the embedded CRD files; the letters beyond ASCII in strings.ToLower, which lowers kinds, DNS names and
-- reasons here; the logs; the locks, whose critical sections are the steps of the model;
-- the duration and the time beyond 64 bits in Poll, which are natural numbers. Writes by other clients
-- between two calls of one reconcile are modelled only for two reconciles that append to one index
-- (Lineage.Append.Lost).
pub mod Prelude
pub mod Kube
pub mod Dns
pub mod Webhook
pub mod Conditions
pub mod Lineage
pub mod E2e
pub mod Process
