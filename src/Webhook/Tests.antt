-- ===== src/Webhook/Tests.antt =====
-- Concrete inputs for the theorems about internal/webhook.
use seam_core.Prelude.{String, ◌≡◌, refl, ◌⊎◌, ◌==◌, some, eq_iff}
use seam_core.Webhook.Decide.{
  Json, infrastructure_lineage_index_kind, operation_create, operation_update, operation_delete,
  lineage_controller_identity, valid_infrastructure_domain_ref, is_empty_raw,
  root_binding_raw_equal,
}
use seam_core.Webhook.Handler.{
  Request, Extract, handle_root_binding, handle_domain_ref, handle_authorship,
}
use seam_core.Webhook.Sealing.{IsAdmitted, KeepsBinding, HasValidDomain, admitted_lineage_index}

-- Documents that are their own text.
abbrev plain_json : Json
plain_json = record { Doc = String; decode = some; deep_equal = λ a b. a == b }

abbrev plain_extract : Extract
plain_extract = record {
  root_binding = λ s. some (some s);
  domain_ref = λ s. some valid_infrastructure_domain_ref;
}

abbrev update_request : Request
update_request = record {
  kind = infrastructure_lineage_index_kind;
  operation = operation_update;
  username = lineage_controller_identity;
  object_raw = "{}";
  old_object_raw = "{}";
}

update_request-IsAdmitted : IsAdmitted plain_json plain_extract update_request
unfolding handle_root_binding handle_domain_ref handle_authorship root_binding_raw_equal
    is_empty_raw
update_request-IsAdmitted = record { binding = refl; domain = refl; author = refl }

admitted_lineage_index_example :
    ((operation_update ≡ operation_delete)
      ⊎ (lineage_controller_identity ≡ lineage_controller_identity))
    × (operation_update ≡ operation_update → KeepsBinding plain_json plain_extract update_request)
    × (operation_update ≡ operation_create → HasValidDomain plain_json plain_extract update_request)
admitted_lineage_index_example =
    admitted_lineage_index plain_json plain_extract eq_iff update_request refl
      update_request-IsAdmitted
