-- ===== src/Lineage/Append/Registered.antt =====
-- That internal/controller/descendant_reconciler.go and outcome_reconciler.go do their work: a
-- derived object ends up in the registries of its index.
use seam_core.Prelude.{
  String, ◌≡◌, refl, ap, ◌∙◌, Bool, true, false, List, [], ◌∷◌, ◌++◌, Option, none, some, ◌==◌,
  eq_refl, inl, inr, Bool-cases, ◌⊎◌, mem, mem-append_one, subst,
}
use seam_core.Kube.Object.{ObjectKey, Unstructured, string_at}
use seam_core.Kube.Client.{Result, ok, err, is_not_found, wrap, pure, raise, on_result}
use seam_core.Kube.Store.{Wrote, ReadAs, IsStore}
use seam_core.Lineage.Labels.{label_root_ili}
use seam_core.Lineage.Index.{LineageIndex, key_of_index, with_descendants, with_outcomes}
use seam_core.Lineage.Registry.{
  LineageClient, index_key_of, descendant_uids, descendant_entry, append_descendant,
  descendant_index_missing, register_descendant,
}
use seam_core.Lineage.Outcome.{
  outcome_uids, outcome_entry, classify_terminal_outcome, append_outcome, outcome_index_missing,
  register_outcome,
}
use seam_core.Lineage.Append.Unique.{
  descendants, outcomes, uids-append_descendant, uids-append_outcome,
}

module _ {S : Type 0} (view : S → ObjectKey → Option LineageIndex) where
  -- The index at the key is there, and a registry of it has the UID.
  abbrev pub Has : (LineageIndex → List String) → ObjectKey → String → S → Type 0
  Has uids k uid t = (ili : LineageIndex) × (view t k ≡ some ili) × (mem uid (uids ili) ≡ true)

  -- The end of a reconcile without an error: the UID is registered, or else there is no index, and
  -- `again` tells whether the request is queued again then.
  abbrev pub Registered :
      Bool → (LineageIndex → List String) → ObjectKey → String → Result Bool × S → Type 0
  Registered again uids k uid (ok b, t) = Has uids k uid t ⊎ ((view t k ≡ none) × (b ≡ again))
  Registered again uids k uid (err _, t) = Unit

  Wrote-Registered :
      (again : Bool) (uids : LineageIndex → List String) (uid prefix : String) (v : LineageIndex)
      (s : S) (p : Result (Unit {0}) × S)
      → mem uid (uids v) ≡ true
      → Wrote view (key_of_index v) v s p
      → Registered again uids
          (key_of_index v)
          uid
          (on_result (λ _. pure false) raise (on_result pure (λ e. raise (wrap prefix e)) p))
  Wrote-Registered again uids uid prefix v s (ok _, t) m w = inl (v, w.0, m)
  Wrote-Registered again uids uid prefix v s (err e, t) m w = tt

  module _ (r : LineageClient S) (store : IsStore view key_of_index r.indexes) where
    append_descendant-Registered :
        (obj : Unstructured) (ili : LineageIndex) (s : S)
        → view s (key_of_index ili) ≡ some ili
        → Registered true
            (descendants view)
            (key_of_index ili)
            obj.uid
            (append_descendant r obj ili s)
    unfolding append_descendant descendant_entry
    append_descendant-Registered obj ili s h =
        elim (Bool-cases (mem obj.uid (descendants view ili))) [
          | inl e ↦ rw e (inl (ili, h, e))
          | inr e ↦
              let es = ili.spec.descendant_registry in
              let new = with_descendants ili (es ++ descendant_entry r obj ili ∷ []) in
              rw e (
                Wrote-Registered true (descendants view) obj.uid _ new s _
                  (ap (mem obj.uid) (uids-append_descendant es (descendant_entry r obj ili))
                    ∙ mem-append_one obj.uid obj.uid (descendant_uids es)
                    ∙ rw (e, eq_refl obj.uid) refl)
                  (store.patches ili new s h))
        ]

    fetched_descendant :
        (obj : Unstructured) (s : S) (p : Result LineageIndex × S)
        → ReadAs view (index_key_of obj) s p
        → Registered true
            (descendants view)
            (index_key_of obj)
            obj.uid
            (on_result (append_descendant r obj) (descendant_index_missing r obj) p)
    unfolding descendant_index_missing
    fetched_descendant obj s (ok ili, t) h =
        let q : key_of_index ili ≡ index_key_of obj = store.keyed s (index_key_of obj) ili h.0 in
        subst (λ k. Registered true (descendants view) k obj.uid (append_descendant r obj ili t)) q
          (append_descendant-Registered obj ili t (h.1 (key_of_index ili) ∙ ap (view s) q ∙ h.0))
    fetched_descendant obj s (err e, t) h = elim (Bool-cases (is_not_found e)) [
      | inl q ↦ rw q (inr (h.1 (index_key_of obj) ∙ h.0 q, refl))
      | inr q ↦ rw q tt
    ]

    -- Over a store of indexes that nobody else writes, a derived object with the label of an
    -- index, whose reconcile ends without an error, has its UID among the descendants of that
    -- index, or else the index is not there and the request is queued again.
    pub register_descendant-Registered :
        (obj : Unstructured) (s : S)
        → (string_at obj.labels label_root_ili == "") ≡ false
        → Registered true
            (descendants view)
            (index_key_of obj)
            obj.uid
            (register_descendant r obj s)
    unfolding register_descendant
    register_descendant-Registered obj s l =
        rw l (fetched_descendant obj s _ (store.reads (index_key_of obj) s))

    append_outcome-Registered :
        (obj : Unstructured) (ili : LineageIndex) (s : S)
        → ((classify_terminal_outcome obj).outcome_type == "") ≡ false
        → view s (key_of_index ili) ≡ some ili
        → Registered false (outcomes view) (key_of_index ili) obj.uid (append_outcome r obj ili s)
    unfolding append_outcome outcome_entry
    append_outcome-Registered obj ili s c h = elim (Bool-cases (mem obj.uid (outcomes view ili))) [
      | inl e ↦ rw e (inl (ili, h, e))
      | inr e ↦
          let es = ili.spec.outcome_registry in
          let entry = outcome_entry r obj (classify_terminal_outcome obj) in
          let new = with_outcomes ili (es ++ entry ∷ []) in
          rw (e, c)
            (Wrote-Registered false (outcomes view) obj.uid _ new s _
              (ap (mem obj.uid) (uids-append_outcome es entry)
                ∙ mem-append_one obj.uid obj.uid (outcome_uids es)
                ∙ rw (e, eq_refl obj.uid) refl)
              (store.patches ili new s h))
    ]

    fetched_outcome :
        (obj : Unstructured) (s : S) (p : Result LineageIndex × S)
        → ((classify_terminal_outcome obj).outcome_type == "") ≡ false
        → ReadAs view (index_key_of obj) s p
        → Registered false
            (outcomes view)
            (index_key_of obj)
            obj.uid
            (on_result (append_outcome r obj) (outcome_index_missing r obj) p)
    unfolding outcome_index_missing
    fetched_outcome obj s (ok ili, t) c h =
        let q : key_of_index ili ≡ index_key_of obj = store.keyed s (index_key_of obj) ili h.0 in
        subst (λ k. Registered false (outcomes view) k obj.uid (append_outcome r obj ili t)) q
          (append_outcome-Registered obj ili t c (h.1 (key_of_index ili) ∙ ap (view s) q ∙ h.0))
    fetched_outcome obj s (err e, t) c h = elim (Bool-cases (is_not_found e)) [
      | inl q ↦ rw q (inr (h.1 (index_key_of obj) ∙ h.0 q, refl))
      | inr q ↦ rw q tt
    ]

    -- Over a store of indexes that nobody else writes, a terminal derived object with the label of
    -- an index, whose reconcile of outcomes ends without an error, has its UID among the outcomes
    -- of that index, or else the index is not there and the request is not queued again.
    pub register_outcome-Registered :
        (obj : Unstructured) (s : S)
        → (string_at obj.labels label_root_ili == "") ≡ false
        → ((classify_terminal_outcome obj).outcome_type == "") ≡ false
        → Registered false (outcomes view) (index_key_of obj) obj.uid (register_outcome r obj s)
    unfolding register_outcome
    register_outcome-Registered obj s l c =
        rw l (fetched_outcome obj s _ c (store.reads (index_key_of obj) s))
