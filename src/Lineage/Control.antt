-- ===== src/Lineage/Control.antt =====
-- LineageReconciler of internal/controller/lineage_controller.go.
pub mod Guard
pub mod Chain
pub mod Bindings
pub mod Pruning
pub mod Settle
pub mod Present
pub mod Whole
pub mod Owned
use seam_core.Prelude.{
  ℕ, String, Bool, true, false, not, ◌&&◌, List, [], ◌∷◌, ◌++◌, map, Option, none, some, ◌==◌, ◌⊕◌,
  if◌then◌else◌, to_lower, any, Dict, get, put,
}
use seam_core.Kube.Object.{ObjectKey, GroupVersionKind, Unstructured, string_at}
use seam_core.Kube.Client.{
  Error, Result, ok, err, wrap, is_not_found, is_already_exists, Api, pure, raise, try_or, within,
  ◌>>=◌, ◌>>◌, ObjectClient,
}
use seam_core.Lineage.Labels.{annotation_declaring_principal}
use seam_core.Lineage.Index.{
  RootBinding, IndexSpec, OwnerReference, LineageRetentionPolicy, LineageIndex,
}
use seam_core.Lineage.Registry.{LineageClient, first_text}
use seam_core.Lineage.Retention.{prune_stale_descendants}
use seam_core.Lineage.Synced.{ensure_lineage_synced_true}

abbrev pub governance_annotation_prefix : String
governance_annotation_prefix = "governance.infrastructure.ontai.dev"

abbrev pub governance_annotation_lineage_index_ref : String
governance_annotation_lineage_index_ref = "governance.infrastructure.ontai.dev/lineage-index-ref"

abbrev pub governance_annotation_controller_authored : String
governance_annotation_controller_authored =
    "governance.infrastructure.ontai.dev/controller-authored"

abbrev pub infrastructure_domain_ref : String
infrastructure_domain_ref = "infrastructure.core.ontai.dev"

unfoldable pub lineage_index_name : String → String → String
lineage_index_name kind name = to_lower kind ⊕ "-" ⊕ name

-- GroupVersion().String()
unfoldable pub group_version : GroupVersionKind → String
group_version gvk = if gvk.group == "" then gvk.version else gvk.group ⊕ "/" ⊕ gvk.version

abbrev pub declaring_principal_of : Unstructured → String
declaring_principal_of root =
    first_text (string_at root.annotations annotation_declaring_principal) "system:unknown"

unfoldable pub build_ili : GroupVersionKind → Unstructured → String → LineageIndex
build_ili gvk root ili_name = record {
  name = ili_name;
  namespace = root.namespace;
  annotations =
      (governance_annotation_controller_authored, "true")
      ∷ ("governance.infrastructure.ontai.dev/root-kind", gvk.kind)
      ∷ ("governance.infrastructure.ontai.dev/root-name", root.name)
      ∷ ("governance.infrastructure.ontai.dev/root-namespace", root.namespace)
      ∷ [];
  labels =
      ("infrastructure.ontai.dev/root-kind", to_lower gvk.kind)
      ∷ ("infrastructure.ontai.dev/root-name", root.name)
      ∷ [];
  owner_references = [];
  spec = record {
    root_binding = record {
      root_kind = gvk.kind;
      root_name = root.name;
      root_namespace = root.namespace;
      root_uid = root.uid;
      root_observed_generation = root.generation;
      declaring_principal = declaring_principal_of root;
    };
    domain_ref = infrastructure_domain_ref;
    descendant_registry = [];
    policy_binding_status = none;
    outcome_registry = [];
    retention_policy = none;
  };
}

-- val, ok := annotations[...]; ok && val == iliName
abbrev pub is_value : Option String → String → Bool
is_value none s = false
is_value (some t) s = t == s

unfoldable pub is_annotated : Unstructured → String → Bool
unfolding get
is_annotated root ili_name =
    is_value (get root.annotations governance_annotation_lineage_index_ref) ili_name

abbrev pub delete_with_root : Option LineageRetentionPolicy → Bool
delete_with_root none = true
delete_with_root (some p) = p.delete_with_root

abbrev pub index_key : Unstructured → String → ObjectKey
index_key root ili_name = record { namespace = root.namespace; name = ili_name }

module _ {S : Type 0} (r : LineageClient S) (rfc3339 : ℕ → String) where
  unfoldable pub write_governance_annotation : Unstructured → String → Api S (Unit {0})
  unfolding is_annotated put
  write_governance_annotation root ili_name =
      if is_annotated root ili_name
      then pure tt
      else r.objects.patch root (record root {
        annotations = put root.annotations governance_annotation_lineage_index_ref ili_name;
      })

  unfoldable pub owner_reference : Unstructured → OwnerReference
  unfolding group_version
  owner_reference root = record {
    api_version = group_version r.gvk;
    kind = r.gvk.kind;
    name = root.name;
    uid = root.uid;
    block_owner_deletion = true;
  }

  unfoldable pub ensure_owner_reference_if_delete_with_root :
      Unstructured → LineageIndex → Api S (Unit {0})
  unfolding owner_reference
  ensure_owner_reference_if_delete_with_root root ili =
      if not (delete_with_root ili.spec.retention_policy)
      then pure tt
      else if any (λ ref. ref.uid == root.uid) ili.owner_references
      then pure tt
      else r.indexes.patch ili
          (record ili { owner_references = ili.owner_references ++ owner_reference root ∷ [] })

  -- Steps Cf to Eg.
  unfoldable pub settle : Unstructured → String → LineageIndex → Api S Bool
  settle root ili_name ili =
      within "failed to prune stale descendants" (prune_stale_descendants r ili) >>= (λ pruned.
        within "failed to write governance annotation" (write_governance_annotation root ili_name)
        >> (within "failed to set LineageSynced=True"
              (ensure_lineage_synced_true r rfc3339 root ili_name)
            >> (within "failed to ensure ownerReference"
                  (ensure_owner_reference_if_delete_with_root root pruned)
                >> pure false)))

  -- The read after a creation; without the index the request is queued again.
  unfoldable pub refetch : Unstructured → String → Api S Bool
  refetch root ili_name =
      try_or (r.indexes.fetch (index_key root ili_name)) (settle root ili_name) (λ e.
        if is_not_found e
        then pure true
        else raise (wrap ("re-fetch InfrastructureLineageIndex " ⊕ ili_name) e))

  unfoldable pub create_index : Unstructured → String → Api S Bool
  unfolding build_ili
  create_index root ili_name =
      try_or (r.indexes.create (build_ili r.gvk root ili_name)) (λ _. refetch root ili_name)
        (λ e.
          if is_already_exists e
          then refetch root ili_name
          else raise (wrap ("failed to create InfrastructureLineageIndex " ⊕ ili_name) e))

  abbrev pub failed_get : String → Error → Api S Bool
  failed_get ili_name e = raise (wrap ("failed to get InfrastructureLineageIndex " ⊕ ili_name) e)

  -- Step C.
  unfoldable pub get_or_create : Unstructured → String → Api S Bool
  get_or_create root ili_name =
      try_or (r.indexes.fetch (index_key root ili_name)) (settle root ili_name)
        (λ e. if is_not_found e then create_index root ili_name else failed_get ili_name e)

  -- Step B for an annotated root declaration: the index is there, or else step C follows.
  unfoldable pub recheck : Unstructured → String → Api S Bool
  recheck root ili_name =
      try_or (r.indexes.fetch (index_key root ili_name))
        (λ _. ensure_lineage_synced_true r rfc3339 root ili_name >> pure false)
        (λ e. if is_not_found e then get_or_create root ili_name else failed_get ili_name e)

  unfoldable pub reconcile_root : Unstructured → Api S Bool
  unfolding lineage_index_name
  reconcile_root root =
      let ili_name = lineage_index_name r.gvk.kind root.name in
      if is_annotated root ili_name then recheck root ili_name else get_or_create root ili_name

  -- LineageReconciler.Reconcile
  unfoldable pub reconcile_lineage : ObjectKey → Api S Bool
  reconcile_lineage req = try_or (r.objects.fetch (r.gvk, req)) reconcile_root (λ e.
      if is_not_found e
      then pure false
      else raise (wrap ("failed to get " ⊕ r.gvk.kind ⊕ " " ⊕ req.namespace ⊕ "/" ⊕ req.name) e))
