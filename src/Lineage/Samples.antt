-- ===== src/Lineage/Samples.antt =====
-- Concrete objects and clients for the tests of lineage.
use seam_core.Prelude.{refl, false, List, [], ◌∷◌, Option, some}
use seam_core.Kube.Object.{ObjectKey, GroupVersionKind, Unstructured, RawCondition, fields, text}
use seam_core.Kube.Client.{ok, ObjectClient}
use seam_core.Kube.Memory.{same_key, same_key_iff, view_memory, memory, memory-IsStore}
use seam_core.Kube.Store.{IsStore}
use seam_core.Lineage.Index.{DescendantEntry, LineageIndex, key_of_index}
use seam_core.Lineage.Labels.{label_root_ili, label_seam_operator, pack_execution}
use seam_core.Lineage.Registry.{KindKey, LineageClient}
use seam_core.Lineage.Control.{build_ili, governance_annotation_lineage_index_ref}
use seam_core.Lineage.Append.{Same}

abbrev pub pack_gvk : GroupVersionKind
pack_gvk = record {
  group = "infrastructure.ontai.dev";
  version = "v1alpha1";
  kind = "InfrastructurePackInstance";
}

abbrev pub failed : RawCondition
failed =
    fields (("type", text "Failed") ∷ ("status", text "True") ∷ ("reason", text "JobFailed") ∷ [])

-- A derived object that has failed.
abbrev pub pack : Unstructured
pack = record {
  gvk = pack_gvk;
  namespace = "seam-system";
  name = "nginx";
  uid = "u2";
  generation = 1;
  deleting = false;
  annotations = (governance_annotation_lineage_index_ref, "infrastructurepackinstance-nginx") ∷ [];
  labels =
      (label_root_ili, "infrastructurepackinstance-nginx") ∷ (label_seam_operator, "wrapper") ∷ [];
  finalizers = [];
  nested_string = λ path. "";
  conditions = failed ∷ [];
  ingress = [];
}

abbrev pub pack_entry : DescendantEntry
pack_entry = record {
  group = pack_gvk.group;
  version = pack_gvk.version;
  kind = pack_gvk.kind;
  name = "gone";
  namespace = "seam-system";
  uid = "u9";
  seam_operator = "wrapper";
  creation_rationale = pack_execution;
  root_generation_at_creation = 1;
  created_at = some 1000;
  actor_ref = "jane";
}

abbrev pub pack_index : LineageIndex
pack_index =
    let fresh = build_ili pack_gvk pack "infrastructurepackinstance-nginx" in
    record fresh { spec = record fresh.spec { descendant_registry = pack_entry ∷ [] } }

abbrev pub Store : Type 0
Store = List LineageIndex

abbrev pub view : Store → ObjectKey → Option LineageIndex
view = view_memory key_of_index same_key

abbrev pub index_client : ObjectClient Store ObjectKey LineageIndex
index_client = memory key_of_index same_key

abbrev pub one_object : ObjectClient Store KindKey Unstructured
one_object = record {
  fetch = λ k s. (ok pack, s);
  create = λ v s. (ok tt, s);
  patch = λ old v s. (ok tt, s);
  update = λ v s. (ok tt, s);
}

abbrev pub client : LineageClient Store
client = record {
  objects = one_object;
  status = λ old v s. (ok tt, s);
  indexes = index_client;
  gvk = pack_gvk;
  now = 4000000000000000;
}

pub store : IsStore view key_of_index index_client
store = memory-IsStore key_of_index same_key same_key_iff

pub quiet : (k : KindKey) (s : Store) → Same view s (one_object.fetch k s).1
quiet k s j = refl

abbrev pub req : ObjectKey
req = record { namespace = "seam-system"; name = "nginx" }
