-- ===== src/Lineage/Control/Guard.antt =====
-- The idempotency guard of `Reconcile` in internal/controller/lineage_controller.go.
use seam_core.Prelude.{
  ℕ, String, ◌≡◌, refl, ◌∙◌, inl, inr, true, false, Option, some, Bool-cases, if◌then◌else◌, any,
}
use seam_core.Kube.Object.{ObjectKey, Unstructured, key_of}
use seam_core.Kube.Client.{Result, ok, err, is_not_found, wrap, pure, raise, on_result, ◌>>◌}
use seam_core.Kube.Store.{ReadAs, IsStore}
use seam_core.Lineage.Index.{LineageIndex, key_of_index}
use seam_core.Lineage.Registry.{KindKey, LineageClient}
use seam_core.Lineage.Synced.{is_synced_true, write_synced, ensure_lineage_synced_true}
use seam_core.Lineage.Control.{
  lineage_index_name, is_annotated, index_key, failed_get, get_or_create, recheck, reconcile_root,
}
use seam_core.Lineage.Append.{Same}

module _ {S : Type 0} (view : S → ObjectKey → Option LineageIndex) (r : LineageClient S)
    (rfc3339 : ℕ → String) where
  module _ (store : IsStore view key_of_index r.indexes)
      (quiet : (k : KindKey) (s : S) → Same view s (r.objects.fetch k s).1)
      (quiet_status : (old new : Unstructured) (s : S) → Same view s (r.status old new s).1) where
    pub after_write :
        (s : S) (p : Result (Unit {0}) × S)
        → Same view s p.1
        → Same view s (on_result (λ _. pure false) raise p).1
    after_write s (ok _, t) h = h
    after_write s (err e, t) h = h

    write_synced-Same :
        (name : String) (fresh : Unstructured) (s : S)
        → Same view s (write_synced r rfc3339 name fresh s).1
    unfolding write_synced
    write_synced-Same name fresh s = elim (Bool-cases (any is_synced_true fresh.conditions)) [
      | inl e ↦ rw e (λ j. refl)
      | inr e ↦ rw e (quiet_status _ _ s)
    ]

    after_fetch :
        (prefix name : String) (s : S) (p : Result Unstructured × S)
        → Same view s p.1
        → Same view s
            (on_result
              (write_synced r rfc3339 name)
              raise
              (on_result pure (λ e. raise (wrap prefix e)) p)).1
    after_fetch prefix name s (ok fresh, t) h j = write_synced-Same name fresh t j ∙ h j
    after_fetch prefix name s (err e, t) h j = h j

    pub ensure-Same :
        (root : Unstructured) (name : String) (s : S)
        → Same view s (ensure_lineage_synced_true r rfc3339 root name s).1
    unfolding ensure_lineage_synced_true
    ensure-Same root name s =
        after_fetch "re-fetch root for LineageSynced patch" name s
          (r.objects.fetch (root.gvk, key_of root) s) (quiet (root.gvk, key_of root) s)

    fetched :
        (root : Unstructured) (name : String) (s : S) (p : Result LineageIndex × S)
        (ili : LineageIndex)
        → view s (index_key root name) ≡ some ili
        → ReadAs view (index_key root name) s p
        → Same view s
            (on_result
              (λ _. ensure_lineage_synced_true r rfc3339 root name >> pure false)
              (λ e.
                if is_not_found e
                then get_or_create r rfc3339 root name
                else failed_get r rfc3339 name e)
              p).1
    fetched root name s (ok _, t) ili b h j = after_write t _ (ensure-Same root name t) j ∙ h.1 j
    fetched root name s (err e, t) ili b h j = elim (Bool-cases (is_not_found e)) [
      | inl q ↦ absurd (cc (h.0 q))
      | inr q ↦ rw q (h.1 j)
    ]

    -- Over a store of indexes that nobody else writes and that the calls for other objects leave
    -- as it is, a reconcile of a root declaration that is annotated with its index, and whose
    -- index is there, changes no index: no descendant is pruned and no owner reference is set.
    pub reconcile_root-annotated :
        (root : Unstructured) (s : S) (ili : LineageIndex)
        → let name = lineage_index_name r.gvk.kind root.name in
          is_annotated root name ≡ true
          → view s (index_key root name) ≡ some ili
          → Same view s (reconcile_root r rfc3339 root s).1
    unfolding reconcile_root recheck
    reconcile_root-annotated root s ili a b = rw a (
        fetched root (lineage_index_name r.gvk.kind root.name) s _ ili b
          (store.reads (index_key root (lineage_index_name r.gvk.kind root.name)) s))
