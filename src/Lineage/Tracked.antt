-- ===== src/Lineage/Tracked.antt =====
-- How the lineage parts fit together: the labels of pkg/lineage with the reconcilers of
-- internal/controller that read them, and the indexes of the lineage controller with internal/webhook.
use seam_core.Prelude.{String, ◌≡◌, refl, true, arith}
use seam_core.Kube.Object.{GroupVersionKind, Unstructured, string_at}
use seam_core.Webhook.Decide.{infrastructure_lineage_index_kind, evaluate_domain_ref_validation}
use seam_core.Lineage.Labels.{set_descendant_labels}
use seam_core.Lineage.Index.{LineageIndex}
use seam_core.Lineage.Registry.{LineageClient, first_text, index_key_of, descendant_entry}
use seam_core.Lineage.Control.{build_ili}

-- An object that `SetDescendantLabels` has labelled names the index and the namespace it was given
-- (its own namespace for an empty one), and its entry in the registry has the operator, the
-- rationale, and the actor for an index without a declaring principal.
pub set_descendant_labels-entry :
    {S : Type 0} (r : LineageClient S) (obj : Unstructured) (ili : LineageIndex)
    (name namespace operator rationale actor : String)
    → let labelled = set_descendant_labels obj name namespace operator rationale actor in
      let entry = descendant_entry r labelled ili in
      (index_key_of labelled
        ≡ record { namespace = first_text namespace obj.namespace; name = name })
      × (entry.seam_operator ≡ operator)
      × (entry.creation_rationale ≡ rationale)
      × (entry.actor_ref ≡ first_text ili.spec.root_binding.declaring_principal actor)
unfolding set_descendant_labels index_key_of descendant_entry string_at
set_descendant_labels-entry r obj ili name namespace operator rationale actor =
    (refl, refl, refl, refl)

-- The domain reference of an index that the lineage controller builds is admitted by the webhook,
-- whatever the operation.
pub build_ili-is_allowed :
    (gvk : GroupVersionKind) (root : Unstructured) (name operation : String)
    → (evaluate_domain_ref_validation (record {
      kind = infrastructure_lineage_index_kind;
      operation = operation;
      domain_ref = (build_ili gvk root name).spec.domain_ref;
    })).is_allowed
      ≡ true
unfolding build_ili evaluate_domain_ref_validation
build_ili-is_allowed gvk root name operation = ground arith
