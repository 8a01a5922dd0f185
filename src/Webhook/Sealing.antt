-- ===== src/Webhook/Sealing.antt =====
-- What the three handlers of internal/webhook/lineage_index_handler.go let through together.
use seam_core.Prelude.{String, ◌≡◌, refl, ◌⊎◌, ◌↔◌, inl, inr, true, Option, none, some, arith}
use seam_core.Webhook.Decide.{
  Decision, Json, infrastructure_lineage_index_kind, operation_create, operation_update,
  operation_delete, lineage_controller_identity, valid_infrastructure_domain_ref,
}
use seam_core.Webhook.Handler.{
  Request, allowed, respond, Extract, bytes_of, extract_root_binding, extract_domain_ref,
  handle_bindings, handle_root_binding, handle_ref, handle_domain_ref, handle_authorship,
}
use seam_core.Webhook.Rules.{
  IsSameBinding, evaluate_authorship_gate-is_allowed, evaluate_domain_ref_validation-is_allowed,
  evaluate_root_binding_immutability-is_allowed,
}

respond-allowed : (d : Decision) → respond d ≡ allowed "" → d.is_allowed ≡ true
respond-allowed d h = ground arith

module _ (json : Json) (extract : Extract) where
  -- All three webhooks answer that the request is allowed.
  pub record IsAdmitted (req : Request) : Type 0 where
    pub binding : handle_root_binding json extract req ≡ allowed ""
    pub domain : handle_domain_ref extract req ≡ allowed ""
    pub author : handle_authorship req ≡ allowed ""

  -- The bytes of both root bindings can be read, and the bindings are the same.
  pub record KeepsBinding (req : Request) : Type 0 where
    pub old : Option String
    pub new : Option String
    pub old_read : extract_root_binding extract req.old_object_raw ≡ some old
    pub new_read : extract_root_binding extract req.object_raw ≡ some new
    pub same : IsSameBinding json (bytes_of old) (bytes_of new)

  -- The domain reference can be read, and is empty or valid.
  pub record HasValidDomain (req : Request) : Type 0 where
    pub ref : String
    pub ref_read : extract_domain_ref extract req.object_raw ≡ some ref
    pub valid : (ref ≡ "") ⊎ (ref ≡ valid_infrastructure_domain_ref)

  author_of :
      (req : Request)
      → req.kind ≡ infrastructure_lineage_index_kind
      → handle_authorship req ≡ allowed ""
      → (req.operation ≡ operation_delete) ⊎ (req.username ≡ lineage_controller_identity)
  unfolding handle_authorship
  author_of req k h = elim ((evaluate_authorship_gate-is_allowed _).0 (respond-allowed _ h)) [
    | inl n ↦ absurd (n k)
    | inr e ↦ e
  ]

  domain_of :
      (req : Request) (o : Option String)
      → extract_domain_ref extract req.object_raw ≡ o
      → req.kind ≡ infrastructure_lineage_index_kind
      → req.operation ≡ operation_create
      → handle_ref extract req o ≡ allowed ""
      → HasValidDomain req
  domain_of req none e k c h = absurd (cc h)
  domain_of req (some ref) e k c h =
      elim ((evaluate_domain_ref_validation-is_allowed _).0 (respond-allowed _ h)) [
        | inl n ↦ absurd (n k)
        | inr (inl n) ↦ absurd (n c)
        | inr (inr v) ↦ record { ref = ref; ref_read = e; valid = v }
      ]

  module _ (decides : (a b : json.Doc) → (json.deep_equal a b ≡ true) ↔ (a ≡ b)) where
    binding_of :
        (req : Request) (n o : Option (Option String))
        → extract_root_binding extract req.object_raw ≡ n
        → extract_root_binding extract req.old_object_raw ≡ o
        → req.kind ≡ infrastructure_lineage_index_kind
        → req.operation ≡ operation_update
        → handle_bindings json extract req n o ≡ allowed ""
        → KeepsBinding req
    unfolding handle_bindings
    binding_of req none o en eo k u h = absurd (cc h)
    binding_of req (some new) none en eo k u h = absurd (cc h)
    binding_of req (some new) (some old) en eo k u h =
        elim ((evaluate_root_binding_immutability-is_allowed json decides _).0
          (respond-allowed _ h)) [
            | inl n ↦ absurd (n k)
            | inr (inl n) ↦ absurd (n u)
            | inr (inr s) ↦ record { old = old; new = new; old_read = eo; new_read = en; same = s }
          ]

    -- If DeepEqual decides the equality of documents, a lineage index that all three webhooks let
    -- through was deleted, or else the lineage controller sent the request; an update keeps the
    -- root binding, and a creation has an empty or the valid domain reference.
    pub admitted_lineage_index :
        (req : Request)
        → req.kind ≡ infrastructure_lineage_index_kind
        → IsAdmitted req
        → ((req.operation ≡ operation_delete) ⊎ (req.username ≡ lineage_controller_identity))
          × (req.operation ≡ operation_update → KeepsBinding req)
          × (req.operation ≡ operation_create → HasValidDomain req)
    unfolding handle_root_binding handle_domain_ref
    admitted_lineage_index req k h = (
      author_of req k h.author,
      (λ u. binding_of req _ _ refl refl k u h.binding),
      (λ c. domain_of req _ refl k c h.domain),
    )
