-- ===== src/Lineage/Append.antt =====
-- What internal/controller/descendant_reconciler.go and outcome_reconciler.go leave in the store of
-- lineage indexes while nobody else writes it.
pub mod Outcomes
pub mod Unique
pub mod Registered
pub mod Lost
use seam_core.Prelude.{
  ℕ, String, ◌≡◌, refl, sym, ap, ◌∙◌, ◌≢◌, ◌⊎◌, inl, inr, Bool, true, false, List, [], ◌∷◌, ◌++◌,
  map, Option, none, some, arith, ◌==◌, eq_iff, eq_refl, Bool-cases, Option-cases, if◌then◌else◌,
  mem, unique, unique-append_one, mem-append_one, subst,
}
use mathlib.Core.Option.{some-injective}
use seam_core.Kube.Object.{ObjectKey, Unstructured, string_at}
use seam_core.Kube.Client.{
  Error, Result, ok, err, is_not_found, wrap, Api, pure, raise, try_or, on_result, within, ◌>>◌,
  ObjectClient,
}
use seam_core.Kube.Store.{Wrote, ReadAs, IsStore}
use seam_core.Lineage.Labels.{label_root_ili}
use seam_core.Lineage.Index.{
  DescendantEntry, OutcomeEntry, LineageIndex, key_of_index, with_descendants, with_outcomes,
}
use seam_core.Lineage.Registry.{
  KindKey, LineageClient, index_key_of, descendant_uids, descendant_entry, append_descendant,
  descendant_index_missing, register_descendant, object_missing, reconcile_descendant,
}
use seam_core.Lineage.Outcome.{
  outcome_uids, classify_terminal_outcome, outcome_entry, append_outcome, outcome_index_missing,
  register_outcome, reconcile_outcome,
}

module _ {S : Type 0} (view : S → ObjectKey → Option LineageIndex) where
  abbrev pub Same : S → S → Type 0
  Same s t = (j : ObjectKey) → view t j ≡ view s j

  -- One index of the store has become `change` of it; it had not been `done`.
  pub record Extension (done : LineageIndex → Bool) (change : LineageIndex → LineageIndex) (s t : S)
      : Type 0 where
    pub ili : LineageIndex
    pub before : view s (key_of_index ili) ≡ some ili
    pub open_still : done ili ≡ false
    pub after : view t (key_of_index ili) ≡ some (change ili)
    pub elsewhere : (j : ObjectKey) → j ≢ key_of_index ili → view t j ≡ view s j

  -- The outcome of a reconcile: an error changes nothing, and success changes nothing or one index.
  abbrev pub Grows :
      (LineageIndex → Bool) → (LineageIndex → LineageIndex) → S → Result Bool × S → Type 0
  Grows done change s (ok _, t) = Same s t ⊎ Extension done change s t
  Grows done change s (err _, t) = Same s t

  same_then :
      (done : LineageIndex → Bool) (change : LineageIndex → LineageIndex) (s t : S)
      (p : Result Bool × S)
      → Same s t
      → Grows done change t p
      → Grows done change s p
  same_then done change s t (err e, u) h g = λ j. g j ∙ h j
  same_then done change s t (ok b, u) h (inl g) = inl (λ j. g j ∙ h j)
  same_then done change s t (ok b, u) h (inr g) = inr (record {
    ili = g.ili;
    before = sym (h (key_of_index g.ili)) ∙ g.before;
    open_still = g.open_still;
    after = g.after;
    elsewhere = λ j n. g.elsewhere j n ∙ h j;
  })

  -- A write of the changed index, with its error under a prefix.
  patched :
      (prefix : String) (done : LineageIndex → Bool) (change : LineageIndex → LineageIndex)
      (ili : LineageIndex) (s : S) (p : Result (Unit {0}) × S)
      → done ili ≡ false
      → view s (key_of_index ili) ≡ some ili
      → Wrote view (key_of_index ili) (change ili) s p
      → Grows done change s
          (on_result (λ _. pure false) raise (on_result pure (λ e. raise (wrap prefix e)) p))
  patched prefix done change ili s (err e, t) d b w = w
  patched prefix done change ili s (ok _, t) d b w =
      inr (record { ili = ili; before = b; open_still = d; after = w.0; elsewhere = w.1 })

  module _ (r : LineageClient S) (store : IsStore view key_of_index r.indexes)
      (quiet : (k : KindKey) (s : S) → Same s (r.objects.fetch k s).1) where
    -- The object's UID is registered.
    abbrev pub is_descendant : Unstructured → LineageIndex → Bool
    is_descendant obj ili = mem obj.uid (descendant_uids ili.spec.descendant_registry)

    abbrev pub add_descendant : Unstructured → LineageIndex → LineageIndex
    add_descendant obj ili =
        with_descendants ili (ili.spec.descendant_registry ++ descendant_entry r obj ili ∷ [])

    append_descendant-Grows :
        (obj : Unstructured) (ili : LineageIndex) (s : S)
        → view s (key_of_index ili) ≡ some ili
        → Grows (is_descendant obj) (add_descendant obj) s (append_descendant r obj ili s)
    unfolding append_descendant
    append_descendant-Grows obj ili s b = elim (Bool-cases (is_descendant obj ili)) [
      | inl e ↦ rw e (inl (λ j. refl))
      | inr e ↦ rw e (
          patched _ (is_descendant obj) (add_descendant obj) ili s _ e b
            (store.patches ili (add_descendant obj ili) s b))
    ]

    fetched_descendant :
        (obj : Unstructured) (s : S) (p : Result LineageIndex × S)
        → ReadAs view (index_key_of obj) s p
        → Grows
            (is_descendant obj)
            (add_descendant obj)
            s
            (on_result (append_descendant r obj) (descendant_index_missing r obj) p)
    unfolding descendant_index_missing
    fetched_descendant obj s (ok ili, t) h =
        let q : key_of_index ili ≡ index_key_of obj = store.keyed s (index_key_of obj) ili h.0 in
        same_then (is_descendant obj) (add_descendant obj) s t _ h.1
          (append_descendant-Grows obj ili t (h.1 (key_of_index ili) ∙ ap (view s) q ∙ h.0))
    fetched_descendant obj s (err e, t) h = elim (Bool-cases (is_not_found e)) [
      | inl q ↦ rw q (inl h.1)
      | inr q ↦ rw q h.1
    ]

    register_descendant-Grows :
        (obj : Unstructured) (s : S)
        → Grows (is_descendant obj) (add_descendant obj) s (register_descendant r obj s)
    unfolding register_descendant
    register_descendant-Grows obj s =
        elim (Bool-cases (string_at obj.labels label_root_ili == "")) [
          | inl e ↦ rw e (inl (λ j. refl))
          | inr e ↦ rw e (fetched_descendant obj s _ (store.reads (index_key_of obj) s))
        ]

    -- The outcome of a whole reconcile, for whichever object it read.
    abbrev pub Appends :
        (Unstructured → LineageIndex → Bool)
        → (Unstructured → LineageIndex → LineageIndex)
        → S
        → Result Bool × S
        → Type 0
    Appends done change s (ok _, t) =
        Same s t ⊎ ((obj : Unstructured) × Extension (done obj) (change obj) s t)
    Appends done change s (err _, t) = Same s t

    Appends-Same :
        (done : Unstructured → LineageIndex → Bool)
        (change : Unstructured → LineageIndex → LineageIndex) (obj : Unstructured) (s t : S)
        (p : Result Bool × S)
        → Same s t
        → Grows (done obj) (change obj) t p
        → Appends done change s p
    Appends-Same done change obj s t (err e, u) h g = λ j. g j ∙ h j
    Appends-Same done change obj s t (ok b, u) h g =
        elim (same_then (done obj) (change obj) s t (ok b, u) h g) [
          | inl e ↦ inl e
          | inr e ↦ inr (obj, e)
        ]

    -- The read of the object, then the rest of the reconcile.
    pub object_read :
        (done : Unstructured → LineageIndex → Bool)
        (change : Unstructured → LineageIndex → LineageIndex) (rest : Unstructured → Api S Bool)
        (req : ObjectKey) (s : S) (p : Result Unstructured × S)
        → ((obj : Unstructured) (t : S) → Grows (done obj) (change obj) t (rest obj t))
        → Same s p.1
        → Appends done change s (on_result rest (object_missing r req) p)
    unfolding object_missing
    object_read done change rest req s (ok obj, t) g h =
        Appends-Same done change obj s t (rest obj t) h (g obj t)
    object_read done change rest req s (err e, t) g h = elim (Bool-cases (is_not_found e)) [
      | inl q ↦ rw q (inl h)
      | inr q ↦ rw q h
    ]

    -- Over a store of indexes that nobody else writes and that the calls for other objects leave
    -- as it is, a reconcile of a derived object leaves the indexes as they were, or appends one
    -- entry to the descendants of one index, which did not have the object's UID; where it returns
    -- an error, it leaves them as they were.
    pub reconcile_descendant-Appends :
        (req : ObjectKey) (s : S)
        → Appends is_descendant add_descendant s (reconcile_descendant r req s)
    unfolding reconcile_descendant
    reconcile_descendant-Appends req s =
        object_read is_descendant add_descendant (register_descendant r) req s _
          register_descendant-Grows (quiet (r.gvk, req) s)
