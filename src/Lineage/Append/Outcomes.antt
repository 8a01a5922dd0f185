-- ===== src/Lineage/Append/Outcomes.antt =====
-- The registry of outcomes: what internal/controller/outcome_reconciler.go leaves in the store.
use seam_core.Prelude.{
  ◌≡◌, refl, ap, ◌∙◌, inl, inr, Bool, ◌||◌, [], ◌∷◌, ◌++◌, Option, some, ◌==◌, Bool-cases, mem,
}
use seam_core.Kube.Object.{ObjectKey, Unstructured, string_at}
use seam_core.Kube.Client.{Result, ok, err, is_not_found, on_result}
use seam_core.Kube.Store.{ReadAs, IsStore}
use seam_core.Lineage.Labels.{label_root_ili}
use seam_core.Lineage.Index.{LineageIndex, key_of_index, with_outcomes}
use seam_core.Lineage.Registry.{KindKey, LineageClient, index_key_of}
use seam_core.Lineage.Outcome.{
  outcome_uids, classify_terminal_outcome, outcome_entry, append_outcome, outcome_index_missing,
  register_outcome, reconcile_outcome,
}
use seam_core.Lineage.Append.{Same, Grows, same_then, patched, Appends, object_read}

module _ {S : Type 0} (view : S → ObjectKey → Option LineageIndex) where
  module _ (r : LineageClient S) (store : IsStore view key_of_index r.indexes)
      (quiet : (k : KindKey) (s : S) → Same view s (r.objects.fetch k s).1) where
    -- The object's outcome is recorded, or there is none yet.
    abbrev pub is_settled : Unstructured → LineageIndex → Bool
    is_settled obj ili =
        mem obj.uid (outcome_uids ili.spec.outcome_registry)
        || (classify_terminal_outcome obj).outcome_type == ""

    abbrev pub add_outcome : Unstructured → LineageIndex → LineageIndex
    add_outcome obj ili =
        with_outcomes ili
          (ili.spec.outcome_registry ++ outcome_entry r obj (classify_terminal_outcome obj) ∷ [])

    append_outcome-Grows :
        (obj : Unstructured) (ili : LineageIndex) (s : S)
        → view s (key_of_index ili) ≡ some ili
        → Grows view (is_settled obj) (add_outcome obj) s (append_outcome r obj ili s)
    unfolding append_outcome
    append_outcome-Grows obj ili s b =
        elim (Bool-cases (mem obj.uid (outcome_uids ili.spec.outcome_registry))) [
          | inl e ↦ rw e (inl (λ j. refl))
          | inr e ↦ elim (Bool-cases ((classify_terminal_outcome obj).outcome_type == "")) [
            | inl f ↦ rw (e, f) (inl (λ j. refl))
            | inr f ↦
                rw (e, f)
                  (patched view _ (is_settled obj) (add_outcome obj) ili s _ (rw (e, f) refl) b
                    (store.patches ili (add_outcome obj ili) s b))
          ]
        ]

    fetched_outcome :
        (obj : Unstructured) (s : S) (p : Result LineageIndex × S)
        → ReadAs view (index_key_of obj) s p
        → Grows view
            (is_settled obj)
            (add_outcome obj)
            s
            (on_result (append_outcome r obj) (outcome_index_missing r obj) p)
    unfolding outcome_index_missing
    fetched_outcome obj s (ok ili, t) h =
        let q : key_of_index ili ≡ index_key_of obj = store.keyed s (index_key_of obj) ili h.0 in
        same_then view (is_settled obj) (add_outcome obj) s t _ h.1
          (append_outcome-Grows obj ili t (h.1 (key_of_index ili) ∙ ap (view s) q ∙ h.0))
    fetched_outcome obj s (err e, t) h = elim (Bool-cases (is_not_found e)) [
      | inl q ↦ rw q (inl h.1)
      | inr q ↦ rw q h.1
    ]

    register_outcome-Grows :
        (obj : Unstructured) (s : S)
        → Grows view (is_settled obj) (add_outcome obj) s (register_outcome r obj s)
    unfolding register_outcome
    register_outcome-Grows obj s = elim (Bool-cases (string_at obj.labels label_root_ili == "")) [
      | inl e ↦ rw e (inl (λ j. refl))
      | inr e ↦ rw e (fetched_outcome obj s _ (store.reads (index_key_of obj) s))
    ]

    -- Over a store of indexes that nobody else writes and that the calls for other objects leave
    -- as it is, a reconcile of outcomes leaves the indexes as they were, or appends the outcome of
    -- a terminal object to one index, which had no outcome for the object's UID; where it returns
    -- an error, it leaves them as they were.
    pub reconcile_outcome-Appends :
        (req : ObjectKey) (s : S)
        → Appends view r store quiet is_settled add_outcome s (reconcile_outcome r req s)
    unfolding reconcile_outcome
    reconcile_outcome-Appends req s =
        object_read view r store quiet is_settled add_outcome (register_outcome r) req s _
          register_outcome-Grows (quiet (r.gvk, req) s)
