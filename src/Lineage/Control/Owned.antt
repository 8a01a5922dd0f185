-- ===== src/Lineage/Control/Owned.antt =====
-- The owner references that a reconcile of a root declaration in
-- internal/controller/lineage_controller.go leaves.
use seam_core.Prelude.{
  ℕ, String, ◌≡◌, refl, ap, ◌∙◌, inl, inr, Bool, true, false, [], ◌∷◌, ◌++◌, Option, none, some,
  Bool-cases, ◌==◌, eq_refl, any, any-append, if◌then◌else◌, arith, subst, ◌⊕◌,
}
use seam_core.Kube.Object.{ObjectKey, Unstructured}
use seam_core.Kube.Client.{
  Error, Result, ok, err, is_not_found, is_already_exists, wrap, Api, pure, raise, on_result,
}
use seam_core.Kube.Store.{Wrote, ReadAs, IsStore}
use seam_core.Lineage.Index.{LineageRetentionPolicy, LineageIndex, key_of_index}
use seam_core.Lineage.Registry.{LineageClient}
use seam_core.Lineage.Control.{
  is_annotated, index_key, build_ili, delete_with_root, owner_reference,
  ensure_owner_reference_if_delete_with_root, settle, refetch, create_index, get_or_create,
  reconcile_root, lineage_index_name,
}
use seam_core.Lineage.Control.Settle.{IsQuiet, IsEnding, own, settle-ends}
use seam_core.Lineage.Control.Present.{Done}

abbrev is_owned : Unstructured → LineageIndex → Bool
is_owned root ili = any (λ ref. ref.uid == root.uid) ili.owner_references

-- The index is to be deleted with its root declaration; an index without a policy is.
abbrev pub DeletesWithRoot : Option LineageRetentionPolicy → Type 0
DeletesWithRoot none = Unit
DeletesWithRoot (some p) = p.delete_with_root ≡ true

deletes : (o : Option LineageRetentionPolicy) → DeletesWithRoot o → delete_with_root o ≡ true
deletes none d = refl
deletes (some p) d = d

module _ {S : Type 0} (view : S → ObjectKey → Option LineageIndex) where
  -- The index at the key is there, and if it is to be deleted with its root declaration, the root
  -- declaration is among its owners.
  pub record Owned (root : Unstructured) (k : ObjectKey) (t : S) : Type 0 where
    pub index : LineageIndex
    pub there : view t k ≡ some index
    pub owned : DeletesWithRoot index.spec.retention_policy → is_owned root index ≡ true

  module _ (r : LineageClient S) (rfc3339 : ℕ → String)
      (store : IsStore view key_of_index r.indexes) (quiet : IsQuiet view r) where
    reference_added :
        (root : Unstructured) (ili : LineageIndex)
        → is_owned root (record ili {
          owner_references = ili.owner_references ++ owner_reference r rfc3339 root ∷ [];
        })
          ≡ true
    unfolding owner_reference
    reference_added root ili = ground (
      arith,
      eq_refl root.uid,
      any-append (λ ref. ref.uid == root.uid) ili.owner_references
          (owner_reference r rfc3339 root ∷ []),
    )

    -- The last call, with the end of the reconcile after it.
    written :
        (root : Unstructured) (new : LineageIndex) (s : S) (p : Result (Unit {0}) × S)
        → is_owned root new ≡ true
        → Wrote view (key_of_index new) new s p
        → Done view (Owned root (key_of_index new)) (
            on_result
              (λ _. pure false)
              raise
              (on_result pure (λ e. raise (wrap "failed to ensure ownerReference" e)) p))
    written root new s (ok _, t) o w = record { index = new; there = w.0; owned = λ d. o }
    written root new s (err e, t) o w = tt

    own-Owned :
        (root : Unstructured) (ili : LineageIndex) (s : S)
        → view s (key_of_index ili) ≡ some ili
        → Done view (Owned root (key_of_index ili)) (own view r rfc3339 store quiet root ili s)
    unfolding ensure_owner_reference_if_delete_with_root
    own-Owned root ili s h = elim (Bool-cases (delete_with_root ili.spec.retention_policy)) [
      | inr e ↦ rw e (record {
        index = ili;
        there = h;
        owned = λ d. absurd (cc (e, deletes ili.spec.retention_policy d));
      })
      | inl e ↦ elim (Bool-cases (is_owned root ili)) [
        | inl f ↦ rw (e, f) (record { index = ili; there = h; owned = λ d. f })
        | inr f ↦
            rw (e, f) (written root _ s _ (reference_added root ili) (store.patches ili _ s h))
      ]
    ]

    Done-IsEnding : (Q : S → Type 0) → IsEnding view r rfc3339 store quiet (λ s p. Done view Q p)
    Done-IsEnding Q = record { later = λ s t p b h. h; failed = λ s t e b. tt }

    settle-Owned :
        (root : Unstructured) (name : String) (ili : LineageIndex) (s : S)
        → view s (index_key root name) ≡ some ili
        → Done view (Owned root (index_key root name)) (settle r rfc3339 root name ili s)
    settle-Owned root name ili s h =
        let k = index_key root name in
        settle-ends view r rfc3339 store quiet (λ t p. Done view (Owned root k) p)
          (Done-IsEnding (Owned root k)) root k
          (λ l t q j.
            subst (λ i. Done view (Owned root i) (own view r rfc3339 store quiet root l t)) q
              (own-Owned root l t (ap (view t) q ∙ j)))
          name ili s (store.keyed s k ili h) h

    -- A read of the index that settles it, with any continuation that ends so.
    read_Owned :
        (root : Unstructured) (name : String) (g : Error → Api S Bool) (s : S)
        (p : Result LineageIndex × S)
        → ReadAs view (index_key root name) s p
        → ((e : Error) (t : S) → Done view (Owned root (index_key root name)) (g e t))
        → Done view (Owned root (index_key root name)) (on_result (settle r rfc3339 root name) g p)
    read_Owned root name g s (ok ili, t) h f =
        settle-Owned root name ili t (h.1 (index_key root name) ∙ h.0)
    read_Owned root name g s (err e, t) h f = f e t

    refetch-Owned :
        (root : Unstructured) (name : String) (s : S)
        → Done view (Owned root (index_key root name)) (refetch r rfc3339 root name s)
    unfolding refetch
    refetch-Owned root name s =
        read_Owned root name _ s _ (store.reads (index_key root name) s)
          (λ e t. elim (Bool-cases (is_not_found e)) [ inl q ↦ rw q tt | inr q ↦ rw q tt ])

    created :
        (root : Unstructured) (name : String) (p : Result (Unit {0}) × S)
        → Done view (Owned root (index_key root name)) (
            on_result
              (λ _. refetch r rfc3339 root name)
              (λ e.
                if is_already_exists e
                then refetch r rfc3339 root name
                else raise (wrap ("failed to create InfrastructureLineageIndex " ⊕ name) e))
              p)
    created root name (ok _, t) = refetch-Owned root name t
    created root name (err e, t) = elim (Bool-cases (is_already_exists e)) [
      | inl q ↦ rw q (refetch-Owned root name t)
      | inr q ↦ rw q tt
    ]

    get_or_create-Owned :
        (root : Unstructured) (name : String) (s : S)
        → Done view (Owned root (index_key root name)) (get_or_create r rfc3339 root name s)
    unfolding get_or_create create_index
    get_or_create-Owned root name s =
        read_Owned root name _ s _ (store.reads (index_key root name) s) (λ e t.
          elim (Bool-cases (is_not_found e)) [
            | inl q ↦ rw q (created root name (r.indexes.create (build_ili r.gvk root name) t))
            | inr q ↦ rw q tt
          ])

    -- Over a store of indexes that nobody else writes and that the calls for other objects leave as
    -- it is, if a reconcile of a root declaration that is not yet annotated with its index ends
    -- without an error and is not queued again, the index is there, and unless it has a policy
    -- by which it outlives its root declaration, an owner reference of it has the UID of this one.
    pub reconcile_root-Owned :
        (root : Unstructured) (s : S)
        → let name = lineage_index_name r.gvk.kind root.name in
          is_annotated root name ≡ false
          → Done view (Owned root (index_key root name)) (reconcile_root r rfc3339 root s)
    unfolding reconcile_root
    reconcile_root-Owned root s e =
        rw e (get_or_create-Owned root (lineage_index_name r.gvk.kind root.name) s)
