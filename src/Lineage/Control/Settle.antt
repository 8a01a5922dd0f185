-- ===== src/Lineage/Control/Settle.antt =====
-- The calls of LineageReconciler in internal/controller/lineage_controller.go: what
-- they keep of the indexes.
use seam_core.Prelude.{
  ℕ, String, ◌≡◌, refl, sym, ap, ◌∙◌, inl, inr, Bool, false, Option, some, ◌==◌, Bool-cases, any,
}
use seam_core.Kube.Object.{ObjectKey, Unstructured}
use seam_core.Kube.Client.{Error, Result, ok, err, wrap, Api, pure, raise, on_result, within, ◌>>◌}
use seam_core.Kube.Store.{IsStore}
use seam_core.Lineage.Index.{LineageIndex, key_of_index}
use seam_core.Lineage.Registry.{KindKey, LineageClient}
use seam_core.Lineage.Retention.{prune_stale_descendants}
use seam_core.Lineage.Synced.{ensure_lineage_synced_true}
use seam_core.Lineage.Control.{
  is_annotated, delete_with_root, write_governance_annotation,
  ensure_owner_reference_if_delete_with_root, settle,
}
use seam_core.Lineage.Append.{Same}
use seam_core.Lineage.Control.Guard.{ensure-Same}
use seam_core.Lineage.Control.Pruning.{Kept, prune-Kept}
use seam_core.Lineage.Control.Bindings.{Bound, Same-Bound, Bound-after, Wrote-Bound}

-- The calls for other objects leave the store of indexes as it is.
pub record IsQuiet {S : Type 0} (view : S → ObjectKey → Option LineageIndex) (r : LineageClient S)
    : Type 0 where
  pub fetches : (k : KindKey) (s : S) → Same view s (r.objects.fetch k s).1
  pub patches : (old new : Unstructured) (s : S) → Same view s (r.objects.patch old new s).1
  pub statuses : (old new : Unstructured) (s : S) → Same view s (r.status old new s).1

module _ {S : Type 0} (view : S → ObjectKey → Option LineageIndex) (r : LineageClient S)
    (rfc3339 : ℕ → String) (store : IsStore view key_of_index r.indexes)
    (quiet : IsQuiet view r) where
  annotation-Same :
      (root : Unstructured) (name : String) (s : S)
      → Same view s (write_governance_annotation r rfc3339 root name s).1
  unfolding write_governance_annotation
  annotation-Same root name s = elim (Bool-cases (is_annotated root name)) [
    | inl e ↦ rw e (λ j. refl)
    | inr e ↦ rw e (quiet.patches _ _ s)
  ]

  owner-Bound :
      (root : Unstructured) (ili : LineageIndex) (s : S)
      → view s (key_of_index ili) ≡ some ili
      → Bound view s (ensure_owner_reference_if_delete_with_root r rfc3339 root ili s).1
  unfolding ensure_owner_reference_if_delete_with_root
  owner-Bound root ili s h = elim (Bool-cases (delete_with_root ili.spec.retention_policy)) [
    | inr e ↦ rw e (Same-Bound view (λ j. refl))
    | inl e ↦ elim (Bool-cases (any (λ ref. ref.uid == root.uid) ili.owner_references)) [
      | inl f ↦ rw (e, f) (Same-Bound view (λ j. refl))
      | inr f ↦ rw (e, f) (Wrote-Bound view ili _ s _ h refl (λ u. u) (store.patches ili _ s h))
    ]
  ]

  -- The last step, and the last two and three.
  abbrev pub own : Unstructured → LineageIndex → Api S Bool
  own root ili =
      within "failed to ensure ownerReference"
        (ensure_owner_reference_if_delete_with_root r rfc3339 root ili)
      >> pure false

  abbrev sync_own : Unstructured → String → LineageIndex → Api S Bool
  sync_own root name ili =
      within "failed to set LineageSynced=True" (ensure_lineage_synced_true r rfc3339 root name)
      >> own root ili

  abbrev annotate_sync_own : Unstructured → String → LineageIndex → Api S Bool
  annotate_sync_own root name ili =
      within "failed to write governance annotation"
        (write_governance_annotation r rfc3339 root name)
      >> sync_own root name ili

  -- A relation between the start and the end of a reconcile which calls that keep the indexes may
  -- precede, and in which such calls may fail.
  pub record IsEnding (G : S → Result Bool × S → Type 0) : Type 0 where
    pub later : (s t : S) (p : Result Bool × S) → Bound view s t → G t p → G s p
    pub failed : (s t : S) (e : Error) → Bound view s t → G s (err e, t)

  module _ (G : S → Result Bool × S → Type 0) (g : IsEnding G) (root : Unstructured) (k : ObjectKey)
      (owns : (ili : LineageIndex) (t : S)
        → key_of_index ili ≡ k
        → view t k ≡ some ili
        → G t (own root ili t)) where
    -- A call that leaves the indexes as they are, and the rest, which relies on one index.
    same_step :
        (prefix : String) (ili : LineageIndex) (rest : Api S Bool) (s : S)
        (p : Result (Unit {0}) × S)
        → Same view s p.1
        → view s k ≡ some ili
        → ((t : S) → view t k ≡ some ili → G t (rest t))
        → G s (on_result (λ _. rest) raise (on_result pure (λ e. raise (wrap prefix e)) p))
    same_step prefix ili rest s (ok u, t) q h f =
        g.later s t (rest t) (Same-Bound view q) (f t (q k ∙ h))
    same_step prefix ili rest s (err e, t) q h f = g.failed s t (wrap prefix e) (Same-Bound view q)

    after_sync :
        (name : String) (ili : LineageIndex) (s : S)
        → key_of_index ili ≡ k
        → view s k ≡ some ili
        → G s (sync_own root name ili s)
    after_sync name ili s q h =
        same_step "failed to set LineageSynced=True" ili (own root ili) s
          (ensure_lineage_synced_true r rfc3339 root name s)
          (ensure-Same view r rfc3339 store quiet.fetches quiet.statuses root name s) h
          (λ t. owns ili t q)

    after_pruning :
        (name : String) (ili : LineageIndex) (s : S)
        → key_of_index ili ≡ k
        → view s k ≡ some ili
        → G s (annotate_sync_own root name ili s)
    after_pruning name ili s q h =
        same_step "failed to write governance annotation" ili (sync_own root name ili) s
          (write_governance_annotation r rfc3339 root name s) (annotation-Same root name s) h
          (λ t. after_sync name ili t q)

    pruned :
        (prefix name : String) (ili : LineageIndex) (s : S) (p : Result LineageIndex × S)
        → key_of_index ili ≡ k
        → Kept view r store quiet.fetches ili s p
        → G s (
            on_result
              (annotate_sync_own root name)
              raise
              (on_result pure (λ e. raise (wrap prefix e)) p))
    pruned prefix name ili s (ok new, t) q h =
        g.later s t _ h.0 (after_pruning name new t (h.2 ∙ q) (ap (view t) (sym q) ∙ h.1))
    pruned prefix name ili s (err e, t) q h = g.failed s t (wrap prefix e) h

    -- A run of the steps from the pruning on ends as its last step does.
    pub settle-ends :
        (name : String) (ili : LineageIndex) (s : S)
        → key_of_index ili ≡ k
        → view s k ≡ some ili
        → G s (settle r rfc3339 root name ili s)
    unfolding settle
    settle-ends name ili s q h =
        pruned "failed to prune stale descendants" name ili s (prune_stale_descendants r ili s) q
          (prune-Kept view r store quiet.fetches ili s (ap (view s) q ∙ h))

  Bound-IsEnding : IsEnding (λ s p. Bound view s p.1)
  Bound-IsEnding = record {
    later = λ s t p h b. Bound-after view s t p.1 h b;
    failed = λ s t e b. b;
  }

  last_step :
      (s : S) (p : Result (Unit {0}) × S)
      → Bound view s p.1
      → Bound view s
          (on_result
            (λ _. pure false)
            raise
            (on_result pure (λ e. raise (wrap "failed to ensure ownerReference" e)) p)).1
  last_step s (ok _, t) h = h
  last_step s (err e, t) h = h

  pub settle-Bound :
      (root : Unstructured) (name : String) (ili : LineageIndex) (s : S)
      → view s (key_of_index ili) ≡ some ili
      → Bound view s (settle r rfc3339 root name ili s).1
  settle-Bound root name ili s h =
      settle-ends (λ s p. Bound view s p.1) Bound-IsEnding root (key_of_index ili)
        (λ l t q j. last_step t _ (owner-Bound root l t (ap (view t) q ∙ j))) name ili s refl h
