-- ===== src/Lineage/Control/Whole.antt =====
-- Reconcile of internal/controller/lineage_controller.go from the read of the root declaration to
-- its end.
use seam_core.Prelude.{
  ℕ, String, ◌≡◌, refl, sym, ap, ◌∙◌, inl, inr, true, false, unique, Option, none, some, Bool-cases,
  if◌then◌else◌, ◌⊕◌,
}
use mathlib.Core.Option.{some-injective}
use seam_core.Kube.Object.{ObjectKey, Unstructured}
use seam_core.Kube.Client.{
  Result, ok, err, is_not_found, is_already_exists, wrap, pure, raise, on_result, ◌>>◌,
}
use seam_core.Kube.Store.{Wrote, ReadAs, IsStore}
use seam_core.Lineage.Index.{LineageIndex, key_of_index}
use seam_core.Lineage.Registry.{LineageClient}
use seam_core.Lineage.Synced.{ensure_lineage_synced_true}
use seam_core.Lineage.Control.{
  is_annotated, index_key, build_ili, settle, refetch, create_index, failed_get, get_or_create,
  recheck, reconcile_root, reconcile_lineage, lineage_index_name,
}
use seam_core.Lineage.Append.{Same}
use seam_core.Lineage.Append.Unique.{key_cases, descendants, outcomes, written-IsUnique}
use seam_core.Lineage.Control.Guard.{ensure-Same}
use seam_core.Lineage.Control.Bindings.{lasting, HasBinding, Bound, Same-Bound, Bound-after}
use seam_core.Lineage.Control.Settle.{IsQuiet}
use seam_core.Lineage.Control.Present.{Settled, Settled-after, Reads, read_settle, refetch-Settled}

module _ {S : Type 0} (view : S → ObjectKey → Option LineageIndex) (r : LineageClient S)
    (rfc3339 : ℕ → String) (store : IsStore view key_of_index r.indexes)
    (quiet : IsQuiet view r) where
  -- The lasting part that the index of a root declaration is to have: its own if it is there, and
  -- otherwise that of the index which is built.
  abbrev pub expected : Unstructured → String → Option LineageIndex → LineageIndex
  expected root name none = lasting (build_ili r.gvk root name)
  expected root name (some ili) = lasting ili

  -- The facts about an expected part that the steps use.
  record Expects (root : Unstructured) (name : String) (b : LineageIndex) (s : S) : Type 0 where
    reads : Reads view r rfc3339 store quiet (index_key root name) b s
    fresh : view s (index_key root name) ≡ none → lasting (build_ili r.gvk root name) ≡ b

  expected-Expects :
      (root : Unstructured) (name : String) (s : S) (o : Option LineageIndex)
      → view s (index_key root name) ≡ o
      → Expects root name (expected root name o) s
  expected-Expects root name s none e = record { reads = λ ili q. absurd (cc q); fresh = λ q. refl }
  expected-Expects root name s (some ili) e = record {
    reads = λ l q. ap lasting (some-injective l ili (sym q ∙ e));
    fresh = λ q. absurd (cc q);
  }

  Same-Expects :
      (root : Unstructured) (name : String) (b : LineageIndex) (s t : S)
      → Same view s t
      → Expects root name b s
      → Expects root name b t
  Same-Expects root name b s t h x = record {
    reads = λ ili q. x.reads ili (sym (h (index_key root name)) ∙ q);
    fresh = λ q. x.fresh (sym (h (index_key root name)) ∙ q);
  }

  built_unique :
      (root : Unstructured) (name : String)
      → (unique (descendants view (build_ili r.gvk root name)) ≡ true)
        × (unique (outcomes view (build_ili r.gvk root name)) ≡ true)
  unfolding build_ili
  built_unique root name = (refl, refl)

  -- A creation where no index is.
  created :
      (root : Unstructured) (name : String) (b : LineageIndex) (s : S) (p : Result (Unit {0}) × S)
      → Expects root name b s
      → view s (index_key root name) ≡ none
      → Wrote view (index_key root name) (build_ili r.gvk root name) s p
      → Settled view (index_key root name) b s (
          on_result
            (λ _. refetch r rfc3339 root name)
            (λ e.
              if is_already_exists e
              then refetch r rfc3339 root name
              else raise (wrap ("failed to create InfrastructureLineageIndex " ⊕ name) e))
            p)
  created root name b s (ok _, t) x n w = Settled-after view (index_key root name) b s t _ kept (
      refetch-Settled view r rfc3339 store quiet root name b t (λ ili q.
        ap lasting (some-injective ili (build_ili r.gvk root name) (sym q ∙ w.0)) ∙ x.fresh n))
    where
      kept : Bound view s t
      kept = record {
        stays = λ j ili q. elim (key_cases j (index_key root name)) [
          | inl e ↦ absurd (cc (ap (view s) e))
          | inr m ↦ (ili, w.1 j m ∙ q, refl)
        ];
        distinct = λ d. (
          written-IsUnique view (descendants view) (index_key root name) _ s t w.0 w.1
              (built_unique root name).0 d.0,
          written-IsUnique view (outcomes view) (index_key root name) _ s t w.0 w.1
              (built_unique root name).1 d.1,
        );
      }
  created root name b s (err e, t) x n w = elim (Bool-cases (is_already_exists e)) [
    | inl q ↦ rw q (
        Settled-after view (index_key root name) b s t _ (Same-Bound view w) (
          refetch-Settled view r rfc3339 store quiet root name b t
            (Same-Expects root name b s t w x).reads))
    | inr q ↦ rw q (record { bound = Same-Bound view w; done = tt })
  ]

  create_index-Settled :
      (root : Unstructured) (name : String) (b : LineageIndex) (s : S)
      → Expects root name b s
      → view s (index_key root name) ≡ none
      → Settled view (index_key root name) b s (create_index r rfc3339 root name s)
  unfolding create_index build_ili
  create_index-Settled root name b s x n =
      created root name b s _ x n (store.creates (build_ili r.gvk root name) s)

  got :
      (root : Unstructured) (name : String) (b : LineageIndex) (s : S) (p : Result LineageIndex × S)
      → Expects root name b s
      → ReadAs view (index_key root name) s p
      → Settled view (index_key root name) b s (
          on_result
            (settle r rfc3339 root name)
            (λ e.
              if is_not_found e
              then create_index r rfc3339 root name
              else failed_get r rfc3339 name e)
            p)
  got root name b s (ok ili, t) x h =
      Settled-after view (index_key root name) b s t _ (Same-Bound view h.1) (
        read_settle view r rfc3339 store quiet root name b ili t
          (Same-Expects root name b s t h.1 x).reads (h.1 (index_key root name) ∙ h.0))
  got root name b s (err e, t) x h = elim (Bool-cases (is_not_found e)) [
    | inl q ↦ rw q (
        Settled-after view (index_key root name) b s t _ (Same-Bound view h.1) (
          create_index-Settled root name b t (Same-Expects root name b s t h.1 x)
            (h.1 (index_key root name) ∙ h.0 q)))
    | inr q ↦ rw q (record { bound = Same-Bound view h.1; done = tt })
  ]

  get_or_create-Settled :
      (root : Unstructured) (name : String) (b : LineageIndex) (s : S)
      → Expects root name b s
      → Settled view (index_key root name) b s (get_or_create r rfc3339 root name s)
  unfolding get_or_create
  get_or_create-Settled root name b s x =
      got root name b s _ x (store.reads (index_key root name) s)

  -- The end of a recheck that found the index.
  synced :
      (k : ObjectKey) (b : LineageIndex) (s : S) (p : Result (Unit {0}) × S)
      → Same view s p.1
      → HasBinding view k b s
      → Settled view k b s (on_result (λ _. pure false) raise p)
  synced k b s (ok _, t) h x = record { bound = Same-Bound view h; done = (x.0, h k ∙ x.1, x.2) }
  synced k b s (err e, t) h x = record { bound = Same-Bound view h; done = tt }

  rechecked :
      (root : Unstructured) (name : String) (b : LineageIndex) (s : S) (p : Result LineageIndex × S)
      → Expects root name b s
      → ReadAs view (index_key root name) s p
      → Settled view (index_key root name) b s (
          on_result
            (λ _. ensure_lineage_synced_true r rfc3339 root name >> pure false)
            (λ e.
              if is_not_found e
              then get_or_create r rfc3339 root name
              else failed_get r rfc3339 name e)
            p)
  rechecked root name b s (ok ili, t) x h =
      Settled-after view (index_key root name) b s t _ (Same-Bound view h.1) (
        synced (index_key root name) b t (ensure_lineage_synced_true r rfc3339 root name t)
          (ensure-Same view r rfc3339 store quiet.fetches quiet.statuses root name t)
          (ili, h.1 (index_key root name) ∙ h.0, x.reads ili h.0))
  rechecked root name b s (err e, t) x h = elim (Bool-cases (is_not_found e)) [
    | inl q ↦ rw q (
        Settled-after view (index_key root name) b s t _ (Same-Bound view h.1)
          (get_or_create-Settled root name b t (Same-Expects root name b s t h.1 x)))
    | inr q ↦ rw q (record { bound = Same-Bound view h.1; done = tt })
  ]

  -- Over a store of indexes that nobody else writes and that the calls for other objects leave as
  -- it is, a reconcile of a root declaration keeps every index, with all but its descendants and its
  -- owner references; the UIDs in each registry stay pairwise different if they were. If it ends
  -- without an error and is not queued again, the index of the root declaration is there, with all
  -- but its descendants and its owner references as it was, or as it is built for the root
  -- declaration if there was no index.
  pub reconcile_root-Settled :
      (root : Unstructured) (s : S)
      → let name = lineage_index_name r.gvk.kind root.name in
        let k = index_key root name in
        Settled view k (expected root name (view s k)) s (reconcile_root r rfc3339 root s)
  unfolding reconcile_root recheck
  reconcile_root-Settled root s =
      let name = lineage_index_name r.gvk.kind root.name in
      let k = index_key root name in
      let x = expected-Expects root name s (view s k) refl in
      elim (Bool-cases (is_annotated root name)) [
        | inl e ↦ rw e (rechecked root name (expected root name (view s k)) s _ x (store.reads k s))
        | inr e ↦ rw e (get_or_create-Settled root name (expected root name (view s k)) s x)
      ]

  root_read :
      (req : ObjectKey) (s : S) (p : Result Unstructured × S)
      → Same view s p.1
      → Bound view s
          (on_result
            (reconcile_root r rfc3339)
            (λ e.
              if is_not_found e
              then pure false
              else raise
                  (wrap ("failed to get " ⊕ r.gvk.kind ⊕ " " ⊕ req.namespace ⊕ "/" ⊕ req.name) e))
            p).1
  root_read req s (ok root, t) h =
      Bound-after view s t _ (Same-Bound view h) (Settled.bound (reconcile_root-Settled root t))
  root_read req s (err e, t) h = elim (Bool-cases (is_not_found e)) [
    | inl q ↦ rw q (Same-Bound view h)
    | inr q ↦ rw q (Same-Bound view h)
  ]

  -- Over a store of indexes that nobody else writes and that the calls for other objects leave as
  -- it is, a reconcile of the lineage controller, whatever its result, keeps every index of the
  -- store, with all but its descendants and its owner references, and the UIDs in each registry
  -- stay pairwise different if they were.
  pub reconcile_lineage-Bound :
      (req : ObjectKey) (s : S) → Bound view s (reconcile_lineage r rfc3339 req s).1
  unfolding reconcile_lineage
  reconcile_lineage-Bound req s =
      root_read req s (r.objects.fetch (r.gvk, req) s) (quiet.fetches (r.gvk, req) s)
