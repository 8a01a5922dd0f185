-- ===== src/Webhook/Rules.antt =====
-- When the webhooks of internal/webhook admit a request.
use seam_core.Prelude.{
  String, ◌≡◌, refl, sym, ap, ◌∙◌, ◌≢◌, ◌⊎◌, ◌↔◌, inl, inr, true, false, Option, none, some, arith,
  eq_iff, eq_cases, Bool-cases,
}
use mathlib.Core.Option.{some-injective}
use seam_core.Webhook.Decide.{
  Json, equal_docs, infrastructure_lineage_index_kind, operation_create, operation_update,
  operation_delete, lineage_controller_identity, valid_infrastructure_domain_ref,
  RootBindingImmutabilityRequest, AuthorshipGateRequest, DomainRefValidationRequest, is_empty_raw,
  root_binding_raw_equal, evaluate_root_binding_immutability, evaluate_authorship_gate,
  evaluate_domain_ref_validation,
}

-- The gate admits a request for another kind, a deletion, or a request of the lineage controller,
-- and no other.
pub evaluate_authorship_gate-is_allowed :
    (req : AuthorshipGateRequest)
    → ((evaluate_authorship_gate req).is_allowed ≡ true) ↔ (
        (req.kind ≢ infrastructure_lineage_index_kind)
        ⊎ ((req.operation ≡ operation_delete)
            ⊎ (req.requesting_user ≡ lineage_controller_identity)))
unfolding evaluate_authorship_gate
evaluate_authorship_gate-is_allowed req = ground (
  arith,
  eq_iff req.kind infrastructure_lineage_index_kind,
  eq_iff req.operation operation_delete,
  eq_iff req.requesting_user lineage_controller_identity,
)

-- The validation admits a request for another kind, an operation other than creation, and a
-- creation with no domain reference or with the valid one, and no other.
pub evaluate_domain_ref_validation-is_allowed :
    (req : DomainRefValidationRequest)
    → ((evaluate_domain_ref_validation req).is_allowed ≡ true) ↔ (
        (req.kind ≢ infrastructure_lineage_index_kind)
        ⊎ ((req.operation ≢ operation_create)
            ⊎ ((req.domain_ref ≡ "") ⊎ (req.domain_ref ≡ valid_infrastructure_domain_ref))))
unfolding evaluate_domain_ref_validation
evaluate_domain_ref_validation-is_allowed req = ground (
  arith,
  eq_iff req.kind infrastructure_lineage_index_kind,
  eq_iff req.operation operation_create,
  eq_iff req.domain_ref "",
  eq_iff req.domain_ref valid_infrastructure_domain_ref,
)

module _ (json : Json) where
  -- Both root bindings are absent, or both decode to one document.
  pub IsSameBinding : String → String → Type 0
  IsSameBinding a b =
      ((is_empty_raw a ≡ true) × (is_empty_raw b ≡ true))
      ⊎ ((is_empty_raw a ≡ false)
          × (is_empty_raw b ≡ false)
          × ((d : json.Doc) × (json.decode a ≡ some d) × (json.decode b ≡ some d)))

  module _ (decides : (a b : json.Doc) → (json.deep_equal a b ≡ true) ↔ (a ≡ b)) where
    equal_docs_iff :
        (o p : Option json.Doc)
        → (equal_docs json o p ≡ true) ↔ ((d : json.Doc) × (o ≡ some d) × (p ≡ some d))
    equal_docs_iff none p = ((λ e. cc), (λ (d, e, f). cc))
    equal_docs_iff (some a) none = ((λ e. cc), (λ (d, e, f). cc))
    equal_docs_iff (some a) (some b) = (
      (λ e. (b, ap some ((decides a b).0 e), refl)),
      (λ (d, e, f). (decides a b).1 (some-injective a b (e ∙ sym f))),
    )

    root_binding_raw_equal_iff :
        (a b : String) → (root_binding_raw_equal json a b ≡ true) ↔ IsSameBinding a b
    unfolding root_binding_raw_equal IsSameBinding
    root_binding_raw_equal_iff a b = elim (Bool-cases (is_empty_raw a)) [
      | inl p ↦ elim (Bool-cases (is_empty_raw b)) [
        | inl q ↦ rw (p, q) ((λ e. inl (refl, refl)), (λ h. refl))
        | inr q ↦ rw (p, q) (ground arith)
      ]
      | inr p ↦ elim (Bool-cases (is_empty_raw b)) [
        | inl q ↦ rw (p, q) (ground arith)
        | inr q ↦
            rw (p, q)
              (
                (λ e. inr (refl, refl, (equal_docs_iff (json.decode a) (json.decode b)).0 e)),
                (λ h. elim h [
                  | inl e ↦ cc
                  | inr e ↦ (equal_docs_iff (json.decode a) (json.decode b)).1 e.2
                ]),
              )
      ]
    ]

    -- If DeepEqual decides the equality of documents, an update of a lineage index is admitted if
    -- its root binding stays the same, and only then; other kinds and other operations are
    -- admitted.
    pub evaluate_root_binding_immutability-is_allowed :
        (req : RootBindingImmutabilityRequest)
        → ((evaluate_root_binding_immutability json req).is_allowed ≡ true) ↔ (
            (req.kind ≢ infrastructure_lineage_index_kind)
            ⊎ ((req.operation ≢ operation_update)
                ⊎ IsSameBinding req.old_root_binding_raw req.new_root_binding_raw))
    unfolding evaluate_root_binding_immutability
    evaluate_root_binding_immutability-is_allowed req =
        let same = root_binding_raw_equal_iff req.old_root_binding_raw req.new_root_binding_raw in
        let kinds = eq_iff req.kind infrastructure_lineage_index_kind in
        let ops = eq_iff req.operation operation_update in
        elim (eq_cases req.kind infrastructure_lineage_index_kind) [
          | inr k ↦ rw k ((λ e. inl (λ q. cc (kinds.1 q))), (λ h. refl))
          | inl k ↦ elim (eq_cases req.operation operation_update) [
            | inr o ↦ rw (kinds.1 k, o) ((λ e. inr (inl (λ q. cc (ops.1 q)))), (λ h. refl))
            | inl o ↦
                rw (kinds.1 k, ops.1 o)
                  (
                    (λ e. inr (inr (same.0 (ground arith)))),
                    (λ h. elim h [
                      | inl n ↦ absurd (n k)
                      | inr (inl n) ↦ absurd (n o)
                      | inr (inr s) ↦ rw (same.1 s)
                    ]),
                  )
          ]
        ]
