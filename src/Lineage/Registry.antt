-- ===== src/Lineage/Registry.antt =====
-- internal/controller/descendant_reconciler.go: appending to the registry of descendants.
use seam_core.Prelude.{
  ℕ, String, Bool, true, false, List, [], ◌∷◌, ◌++◌, map, some, ◌/◌, ◌==◌, ◌⊕◌, if◌then◌else◌, mem,
}
use seam_core.Kube.Object.{ObjectKey, GroupVersionKind, Unstructured, string_at}
use seam_core.Kube.Client.{
  Error, is_not_found, wrap, Api, pure, raise, try_or, within, ◌>>◌, ObjectClient,
}
use seam_core.Lineage.Labels.{
  label_root_ili, label_root_ili_namespace, label_seam_operator, label_creation_rationale,
  label_actor_ref,
}
use seam_core.Lineage.Index.{DescendantEntry, LineageIndex, with_descendants}

abbrev pub KindKey : Type 0
KindKey = GroupVersionKind × ObjectKey

abbrev pub derived_object_gvks : List GroupVersionKind
derived_object_gvks =
    record {
      group = "infrastructure.ontai.dev";
      version = "v1alpha1";
      kind = "InfrastructureRunnerConfig";
    }
    ∷ record {
      group = "infrastructure.ontai.dev";
      version = "v1alpha1";
      kind = "InfrastructurePackInstance";
    }
    ∷ []

-- A reconciler of one kind; `status` is the client's `Status().Patch`, `now` is the clock in
-- nanoseconds since the epoch.
pub record LineageClient (S : Type 0) : Type 0 where
  pub objects : ObjectClient S KindKey Unstructured
  pub status : Unstructured → Unstructured → Api S (Unit {0})
  pub indexes : ObjectClient S ObjectKey LineageIndex
  pub gvk : GroupVersionKind
  pub now : ℕ

abbrev pub seconds : ℕ → ℕ
seconds n = n / 1000000000

abbrev pub first_text : String → String → String
first_text a b = if a == "" then b else a

-- The key of the lineage index that the labels of a derived object name.
unfoldable pub index_key_of : Unstructured → ObjectKey
index_key_of obj = record {
  namespace = first_text (string_at obj.labels label_root_ili_namespace) obj.namespace;
  name = string_at obj.labels label_root_ili;
}

abbrev pub descendant_uids : List DescendantEntry → List String
descendant_uids es = map (λ e. e.uid) es

module _ {S : Type 0} (r : LineageClient S) where
  unfoldable pub descendant_entry : Unstructured → LineageIndex → DescendantEntry
  descendant_entry obj ili = record {
    group = r.gvk.group;
    version = r.gvk.version;
    kind = r.gvk.kind;
    name = obj.name;
    namespace = obj.namespace;
    uid = obj.uid;
    seam_operator = string_at obj.labels label_seam_operator;
    creation_rationale = string_at obj.labels label_creation_rationale;
    root_generation_at_creation = obj.generation;
    created_at = some (seconds r.now);
    actor_ref =
        first_text ili.spec.root_binding.declaring_principal (string_at obj.labels label_actor_ref);
  }

  -- The rest of `Reconcile` once the index is fetched: the guard and the append.
  unfoldable pub append_descendant : Unstructured → LineageIndex → Api S Bool
  append_descendant obj ili =
      if mem obj.uid (descendant_uids ili.spec.descendant_registry)
      then pure false
      else (within ("patch DescendantRegistry on ILI " ⊕ string_at obj.labels label_root_ili) (
            r.indexes.patch ili (
              with_descendants ili (ili.spec.descendant_registry ++ descendant_entry obj ili ∷ [])))
          >> pure false)

  -- The index is not there yet: the request is queued again.
  unfoldable pub descendant_index_missing : Unstructured → Error → Api S Bool
  descendant_index_missing obj e =
      if is_not_found e
      then pure true
      else raise (wrap ("get InfrastructureLineageIndex " ⊕ string_at obj.labels label_root_ili) e)

  unfoldable pub register_descendant : Unstructured → Api S Bool
  register_descendant obj =
      if string_at obj.labels label_root_ili == ""
      then pure false
      else try_or (r.indexes.fetch (index_key_of obj)) (append_descendant obj)
          (descendant_index_missing obj)

  unfoldable pub object_missing : ObjectKey → Error → Api S Bool
  object_missing req e =
      if is_not_found e
      then pure false
      else raise (wrap ("get " ⊕ r.gvk.kind ⊕ " " ⊕ req.namespace ⊕ "/" ⊕ req.name) e)

  -- DescendantReconciler.Reconcile; the result tells whether to queue the request again.
  unfoldable pub reconcile_descendant : ObjectKey → Api S Bool
  reconcile_descendant req =
      try_or (r.objects.fetch (r.gvk, req)) register_descendant (object_missing req)
