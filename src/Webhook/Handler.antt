-- ===== src/Webhook/Handler.antt =====
-- The handlers of internal/webhook/lineage_index_handler.go.
use seam_core.Prelude.{ℕ, String, Option, none, some, ◌==◌, if◌then◌else◌}
use seam_core.Webhook.Decide.{
  Decision, Json, evaluate_root_binding_immutability, evaluate_authorship_gate,
  evaluate_domain_ref_validation,
}

-- What the handlers read of an `admission.Request`.
pub record Request : Type 0 where
  pub kind : String
  pub operation : String
  pub username : String
  pub object_raw : String
  pub old_object_raw : String

-- admission.Allowed, admission.Denied, admission.Errored
pub data Response : Type 0 where
  allowed : String → Response
  denied : String → Response
  errored : ℕ → Response

abbrev pub status_bad_request : ℕ
status_bad_request = 400

abbrev pub respond : Decision → Response
respond d = if d.is_allowed then allowed "" else denied d.reason

-- Decoding of an object into the two extract types: `json.Unmarshal` into
-- `specRootBindingExtract`, with the raw bytes of spec.rootBinding if the field is there and not
-- null, and into `specDomainRefExtract`, with spec.domainRef, "" where it is absent.
pub record Extract : Type 0 where
  pub root_binding : String → Option (Option String)
  pub domain_ref : String → Option String

abbrev pub bytes_of : Option String → String
bytes_of none = ""
bytes_of (some raw) = raw

module _ (extract : Extract) where
  -- `none` is an error; no bytes decode to no root binding.
  unfoldable pub extract_root_binding : String → Option (Option String)
  extract_root_binding raw = if raw == "" then some none else extract.root_binding raw

  unfoldable pub extract_domain_ref : String → Option String
  extract_domain_ref raw = if raw == "" then some "" else extract.domain_ref raw

module _ (json : Json) (extract : Extract) where
  unfoldable pub handle_bindings :
      Request → Option (Option String) → Option (Option String) → Response
  unfolding evaluate_root_binding_immutability
  handle_bindings req (some new) (some old) = respond (
      evaluate_root_binding_immutability json (record {
        kind = req.kind;
        operation = req.operation;
        old_root_binding_raw = bytes_of old;
        new_root_binding_raw = bytes_of new;
      }))
  handle_bindings req _ _ = errored status_bad_request

  -- RootBindingImmutabilityHandler.Handle
  unfoldable pub handle_root_binding : Request → Response
  unfolding extract_root_binding handle_bindings
  handle_root_binding req =
      handle_bindings req (extract_root_binding extract req.object_raw)
        (extract_root_binding extract req.old_object_raw)

module _ (extract : Extract) where
  abbrev pub handle_ref : Request → Option String → Response
  handle_ref req none = errored status_bad_request
  handle_ref req (some ref) = respond (
      evaluate_domain_ref_validation
        (record { kind = req.kind; operation = req.operation; domain_ref = ref }))

  -- DomainRefValidationHandler.Handle
  unfoldable pub handle_domain_ref : Request → Response
  unfolding extract_domain_ref evaluate_domain_ref_validation
  handle_domain_ref req = handle_ref req (extract_domain_ref extract req.object_raw)

-- AuthorshipGateHandler.Handle
unfoldable pub handle_authorship : Request → Response
unfolding evaluate_authorship_gate
handle_authorship req = respond (
    evaluate_authorship_gate
      (record { kind = req.kind; operation = req.operation; requesting_user = req.username }))
