-- ===== src/Process/Unchecked.antt =====
-- The webhooks that cmd/seam-core/main.go leaves out, and what they would have refused.
use seam_core.Prelude.{
  String, ◌≡◌, refl, sym, ap, ◌≢◌, true, Option, none, some, subst, All, eq_of_ne,
}
use seam_core.Webhook.Decide.{
  Json, infrastructure_lineage_index_kind, operation_create, lineage_controller_identity,
  valid_infrastructure_domain_ref, evaluate_root_binding_immutability, evaluate_authorship_gate,
  evaluate_domain_ref_validation,
}
use seam_core.Webhook.Handler.{
  Request, Response, allowed, Extract, extract_root_binding, extract_domain_ref, handle_bindings,
  handle_root_binding, handle_ref, handle_domain_ref, handle_authorship,
}
use seam_core.Process.{
  Handler, root_binding_immutability, authorship_gate, domain_ref_validation, Flags, Manager, main,
}
use seam_core.Process.Running.{Running, IsManager, Idle}
use seam_core.Process.Wiring.{main-Whole, webhooks_served}

module _ (json : Json) (extract : Extract) where
  -- What the handler that is registered answers.
  abbrev pub answer : Handler → Request → Response
  answer root_binding_immutability req = handle_root_binding json extract req
  answer authorship_gate req = handle_authorship req
  answer domain_ref_validation req = handle_domain_ref extract req

  -- A creation of a lineage index by the lineage controller, with a root binding that decodes and
  -- a domain reference that is neither empty nor the valid one.
  pub record IsForeign (req : Request) : Type 0 where
    pub kind : req.kind ≡ infrastructure_lineage_index_kind
    pub operation : req.operation ≡ operation_create
    pub username : req.username ≡ lineage_controller_identity
    pub old : req.old_object_raw ≡ ""
    pub binding : Option String
    pub binding_read : extract_root_binding extract req.object_raw ≡ some binding
    pub ref : String
    pub ref_read : extract_domain_ref extract req.object_raw ≡ some ref
    pub ref_given : ref ≢ ""
    pub ref_foreign : ref ≢ valid_infrastructure_domain_ref

  bindings_allowed :
      (req : Request) (n : Option String) (o : Option (Option String))
      → o ≡ some none
      → req.kind ≡ infrastructure_lineage_index_kind
      → req.operation ≡ operation_create
      → handle_bindings json extract req (some n) o ≡ allowed ""
  unfolding handle_bindings evaluate_root_binding_immutability
  bindings_allowed req n none e k c = cc
  bindings_allowed req n (some o) e k c = rw (k, c) refl

  author_allowed :
      (req : Request)
      → req.kind ≡ infrastructure_lineage_index_kind
      → req.operation ≡ operation_create
      → req.username ≡ lineage_controller_identity
      → handle_authorship req ≡ allowed ""
  unfolding handle_authorship evaluate_authorship_gate
  author_allowed req k c u = rw (k, c, u) refl

  ref_denied :
      (req : Request) (ref : String)
      → req.kind ≡ infrastructure_lineage_index_kind
      → req.operation ≡ operation_create
      → ref ≢ ""
      → ref ≢ valid_infrastructure_domain_ref
      → handle_ref extract req (some ref) ≢ allowed ""
  unfolding evaluate_domain_ref_validation
  ref_denied req ref k c g f =
      rw (k, c, eq_of_ne ref "" g, eq_of_ne ref valid_infrastructure_domain_ref f) (λ e. cc)

  admitted :
      (req : Request)
      → IsForeign req
      → All (λ w. answer w.1 req ≡ allowed "") webhooks_served
        × (answer domain_ref_validation req ≢ allowed "")
  unfolding handle_root_binding handle_domain_ref
  admitted req f = (
    (
      rw f.binding_read (
          bindings_allowed req f.binding (extract_root_binding extract req.old_object_raw)
            (rw f.old refl) f.kind f.operation),
      (author_allowed req f.kind f.operation f.username, tt),
    ),
    rw f.ref_read (ref_denied req f.ref f.kind f.operation f.ref_given f.ref_foreign),
  )

module _ {Sink S : Type 0} (view : S → Running Sink) (mgr : Manager Sink S)
    (manager : IsManager view mgr) (getenv : String → String) where
  -- Every webhook that a started process serves admits the creation of a lineage index whose domain
  -- reference is foreign, if the lineage controller sends it and its root binding decodes; the
  -- handler that would deny it is not among them.
  pub main-Unchecked :
      (parse : Flags → Flags) (s : S)
      → Idle view s
      → (view (main mgr getenv parse s).1).started ≡ true
      → (json : Json) (extract : Extract) (req : Request) → IsForeign json extract req
      → All
          (λ w. answer json extract w.1 req ≡ allowed "")
          (view (main mgr getenv parse s).1).webhooks
        × (answer json extract domain_ref_validation req ≢ allowed "")
  main-Unchecked parse s h started json extract req f =
      subst
        (λ ws.
          All (λ w. answer json extract w.1 req ≡ allowed "") ws
          × (answer json extract domain_ref_validation req ≢ allowed ""))
        (sym (
          ap (λ (r : Running Sink). r.webhooks)
            (main-Whole view mgr manager getenv parse s h started)))
        (admitted json extract req f)
