-- ===== src/Dns/Runs.antt =====
-- Runs of the reconciler of internal/controller/dsns_reconciler.go over a server of ConfigMaps and
-- one of objects.
use seam_core.Prelude.{ℕ, ◌≡◌, refl, true, false, List, [], ◌∷◌, Option, none}
use seam_core.Kube.Object.{ObjectKey, GroupVersionKind, Unstructured}
use seam_core.Kube.Memory.{memory, view_memory, memory-IsStore, same_key, same_key_iff}
use seam_core.Kube.Both.{
  same_kind_key, same_kind_key_iff, left, right, left-IsStore, right-IsObjectStore, left-Stable,
}
use seam_core.Dns.State.{apply, new_dsns_state, remove_records}
use seam_core.Kube.Deletion.{object_memory, object_memory-IsObjectStore}
use seam_core.Dns.Writer.{ConfigMap, key_of_map, apply_content}
use seam_core.Dns.Reconcile.{
  World, Reconciler, KindKey, dsns_finalizer, dsns_owner_id, contains_dsns_finalizer,
  reconcile_deleting, reconcile_found, apply_state,
}
use seam_core.Dns.Reconcile.Finalizer.{object_key, IsApart, Ended, reconcile_deleting-Released}
use seam_core.Dns.Reconcile.Adoption.{Adopted, adopted_state, reconcile_found-Adopted}

abbrev Servers : Type 0
Servers = List ConfigMap × List Unstructured

abbrev view_maps : Servers → ObjectKey → Option ConfigMap
view_maps s = view_memory key_of_map same_key s.0

abbrev view_objects : Servers → KindKey → Option Unstructured
view_objects s = view_memory object_key same_kind_key s.1

abbrev talos : GroupVersionKind
talos = record {
  group = "infrastructure.ontai.dev";
  version = "v1alpha1";
  kind = "InfrastructureTalosCluster";
}

abbrev alpha : ObjectKey
alpha = record { namespace = "seam-tenant-a"; name = "alpha" }

abbrev two_servers : Reconciler Servers
two_servers = record {
  objects = right (object_memory object_key same_kind_key);
  maps = left (memory key_of_map same_key);
  sha256_hex = λ s. s;
  gvk = talos;
  ns_glue_fallback_ip = "10.0.0.9";
  now = 1700000000;
}

two_servers-IsApart : IsApart view_maps view_objects two_servers
two_servers-IsApart = record {
  map_store =
      left-IsStore (view_memory key_of_map same_key) key_of_map (memory key_of_map same_key)
        (memory-IsStore key_of_map same_key same_key_iff);
  object_store =
      right-IsObjectStore (view_memory object_key same_kind_key) object_key
        (object_memory object_key same_kind_key)
        (object_memory-IsObjectStore object_key same_kind_key same_kind_key_iff);
  map_calls = λ s. left-Stable (memory key_of_map same_key) (λ a d b h. h);
  updates = λ v s j. refl;
}

-- A cluster without a finalizer, and one that is being deleted.
abbrev plain_cluster : Unstructured
plain_cluster = record {
  gvk = talos;
  namespace = "seam-tenant-a";
  name = "alpha";
  uid = "u1";
  generation = 1;
  deleting = false;
  annotations = [];
  labels = [];
  finalizers = [];
  nested_string = λ path. "";
  conditions = [];
  ingress = [];
}

abbrev deleted_cluster : Unstructured
deleted_cluster = record plain_cluster { deleting = true; finalizers = dsns_finalizer ∷ [] }

abbrev world : Unstructured → World ℕ Servers
world obj = record { state = new_dsns_state; outside = ([], obj ∷ []); sent = [] }

reconcile_deleting-Released_example :
    Ended view_maps view_objects two_servers
      (talos, alpha)
      deleted_cluster
      (remove_records new_dsns_state
        (dsns_owner_id "InfrastructureTalosCluster" "seam-tenant-a" "alpha"))
      (world deleted_cluster)
      (reconcile_deleting two_servers alpha deleted_cluster (world deleted_cluster))
reconcile_deleting-Released_example =
    reconcile_deleting-Released view_maps view_objects two_servers two_servers-IsApart alpha
      deleted_cluster (world deleted_cluster) refl refl

-- The object had no other finalizer, and is gone.
deleted_cluster_gone :
    view_objects
      (reconcile_deleting two_servers alpha deleted_cluster (world deleted_cluster)).1.outside
      (talos, alpha)
    ≡ none
unfolding reconcile_deleting apply_state apply apply_content
deleted_cluster_gone = refl

plain_unfinalized : contains_dsns_finalizer plain_cluster ≡ false
unfolding contains_dsns_finalizer
plain_unfinalized = refl

reconcile_found-Adopted_example :
    Adopted view_maps view_objects two_servers two_servers-IsApart
      (talos, alpha)
      plain_cluster
      (adopted_state view_maps view_objects two_servers two_servers-IsApart alpha plain_cluster
        new_dsns_state)
      (reconcile_found two_servers alpha plain_cluster (world plain_cluster))
reconcile_found-Adopted_example =
    reconcile_found-Adopted view_maps view_objects two_servers two_servers-IsApart alpha
      plain_cluster (world plain_cluster) refl refl plain_unfinalized
