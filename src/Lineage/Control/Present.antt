-- ===== src/Lineage/Control/Present.antt =====
-- What a whole reconcile of internal/controller/lineage_controller.go leaves in the store of indexes.
use seam_core.Prelude.{
  ℕ, String, ◌≡◌, sym, ap, ◌∙◌, inl, inr, Bool, true, false, Option, some, Bool-cases,
  if◌then◌else◌, subst, ◌⊕◌,
}
use seam_core.Kube.Object.{ObjectKey, Unstructured}
use seam_core.Kube.Client.{Result, ok, err, is_not_found, wrap, pure, raise, on_result}
use seam_core.Kube.Store.{ReadAs, IsStore}
use seam_core.Lineage.Index.{LineageIndex, key_of_index}
use seam_core.Lineage.Registry.{LineageClient}
use seam_core.Lineage.Control.{index_key, settle, refetch}
use seam_core.Lineage.Control.Bindings.{lasting, HasBinding, Bound, Same-Bound, Bound-after}
use seam_core.Lineage.Control.Settle.{IsQuiet, settle-Bound}

module _ {S : Type 0} (view : S → ObjectKey → Option LineageIndex) where
  -- A reconcile that ends without an error and is not queued again ends so.
  abbrev pub Done : (S → Type 0) → Result Bool × S → Type 0
  Done Q (ok false, t) = Q t
  Done Q (ok true, t) = Unit
  Done Q (err _, t) = Unit

  -- In the end the index at the key is there with the lasting part, unless the reconcile failed or
  -- is queued again; every index of the start is there with its lasting part in any case, and the
  -- registries name each object once if they did.
  pub record Settled (k : ObjectKey) (b : LineageIndex) (s : S) (p : Result Bool × S) : Type 0 where
    pub bound : Bound view s p.1
    pub done : Done (HasBinding view k b) p

  Done-always : (Q : S → Type 0) (p : Result Bool × S) → Q p.1 → Done Q p
  Done-always Q (ok true, t) h = tt
  Done-always Q (ok false, t) h = h
  Done-always Q (err e, t) h = tt

  pub Settled-after :
      (k : ObjectKey) (b : LineageIndex) (s t : S) (p : Result Bool × S)
      → Bound view s t
      → Settled k b t p
      → Settled k b s p
  Settled-after k b s t p h g = record { bound = Bound-after view s t p.1 h g.bound; done = g.done }

  module _ (r : LineageClient S) (rfc3339 : ℕ → String)
      (store : IsStore view key_of_index r.indexes) (quiet : IsQuiet view r) where
    settle-Settled :
        (root : Unstructured) (name : String) (ili : LineageIndex) (s : S)
        → view s (index_key root name) ≡ some ili
        → Settled (index_key root name) (lasting ili) s (settle r rfc3339 root name ili s)
    settle-Settled root name ili s h =
        let q : key_of_index ili ≡ index_key root name =
          store.keyed s (index_key root name) ili h in
        let b = settle-Bound view r rfc3339 store quiet root name ili s (ap (view s) q ∙ h) in
        record {
          bound = b;
          done =
              Done-always (HasBinding view (index_key root name) (lasting ili)) _
                (Bound.stays b (index_key root name) ili h);
        }

    -- The lasting part of an index that is read at the key, if only one is possible.
    abbrev pub Reads : ObjectKey → LineageIndex → S → Type 0
    Reads k b s = (ili : LineageIndex) → view s k ≡ some ili → lasting ili ≡ b

    pub read_settle :
        (root : Unstructured) (name : String) (b : LineageIndex) (ili : LineageIndex) (s : S)
        → Reads (index_key root name) b s
        → view s (index_key root name) ≡ some ili
        → Settled (index_key root name) b s (settle r rfc3339 root name ili s)
    read_settle root name b ili s u h =
        subst (λ c. Settled (index_key root name) c s (settle r rfc3339 root name ili s)) (u ili h)
          (settle-Settled root name ili s h)

    refetched :
        (root : Unstructured) (name : String) (b : LineageIndex) (s : S)
        (p : Result LineageIndex × S)
        → Reads (index_key root name) b s
        → ReadAs view (index_key root name) s p
        → Settled (index_key root name) b s (
            on_result
              (settle r rfc3339 root name)
              (λ e.
                if is_not_found e
                then pure true
                else raise (wrap ("re-fetch InfrastructureLineageIndex " ⊕ name) e))
              p)
    refetched root name b s (ok ili, t) u h =
        Settled-after (index_key root name) b s t _ (Same-Bound view h.1) (
          read_settle root name b ili t (λ l q. u l (sym (h.1 (index_key root name)) ∙ q))
            (h.1 (index_key root name) ∙ h.0))
    refetched root name b s (err e, t) u h = elim (Bool-cases (is_not_found e)) [
      | inl q ↦ rw q (record { bound = Same-Bound view h.1; done = tt })
      | inr q ↦ rw q (record { bound = Same-Bound view h.1; done = tt })
    ]

    pub refetch-Settled :
        (root : Unstructured) (name : String) (b : LineageIndex) (s : S)
        → Reads (index_key root name) b s
        → Settled (index_key root name) b s (refetch r rfc3339 root name s)
    unfolding refetch
    refetch-Settled root name b s u =
        refetched root name b s _ u (store.reads (index_key root name) s)
