-- ===== src/Kube/Deletion.antt =====
-- What is relied on of the API server for objects with finalizers, and such a server in memory: an
-- update that takes the last finalizer from an object that is being deleted removes the object.
use seam_core.Prelude.{
  ◌≡◌, refl, sym, ◌∙◌, ◌≢◌, ◌↔◌, inl, inr, Bool, true, false, not, ◌&&◌, ◌⊎◌, arith, List, [], ◌∷◌,
  Option, none, some, Bool-cases, if◌then◌else◌, select,
}
use seam_core.Kube.Object.{Unstructured}
use seam_core.Kube.Client.{api, not_found, Result, ok, err, ObjectClient}
use seam_core.Kube.Store.{Wrote, IsStore}
use seam_core.Kube.Memory.{view_memory, memory, memory-IsStore, update-Wrote}

abbrev pub is_empty {ℓ} : {A : Type ℓ} → List A → Bool
is_empty [] = true
is_empty (x ∷ xs) = false

-- What the server stores for an update to `v`.
abbrev pub left_by : Unstructured → Option Unstructured
left_by v = if v.deleting && is_empty v.finalizers then none else some v

pub left_by-removed :
    (v : Unstructured) → v.deleting ≡ true → is_empty v.finalizers ≡ true → left_by v ≡ none
left_by-removed v d e =
    let q : (v.deleting && is_empty v.finalizers) ≡ true = ground arith in rw q refl

pub left_by-present :
    (v : Unstructured) → (v.deleting ≡ false) ⊎ (is_empty v.finalizers ≡ false) → left_by v ≡ some v
left_by-present v h =
    let q : (v.deleting && is_empty v.finalizers) ≡ false = ground arith in rw q refl

module _ {S K : Type 0} (view : S → K → Option Unstructured) where
  -- What holds after an update to `v` of the object at `k`, by its outcome.
  abbrev pub Updated : K → Unstructured → S → Result (Unit {0}) × S → Type 0
  Updated k v s (ok _, t) = (view t k ≡ left_by v) × ((j : K) → j ≢ k → view t j ≡ view s j)
  Updated k v s (err _, t) = (j : K) → view t j ≡ view s j

  pub Updated-Wrote :
      (k : K) (v : Unstructured) (s : S) (p : Result (Unit {0}) × S)
      → (v.deleting ≡ false) ⊎ (is_empty v.finalizers ≡ false)
      → Updated k v s p
      → Wrote view k v s p
  Updated-Wrote k v s (ok _, t) h u = (u.0 ∙ left_by-present v h, u.1)
  Updated-Wrote k v s (err _, t) h u = u

  -- An update does not change whether the object is being deleted.
  pub record IsObjectStore (key : Unstructured → K) (client : ObjectClient S K Unstructured)
      : Type 0 where
    pub stores : IsStore view key client
    pub updates :
        (old v : Unstructured) (s : S)
        → view s (key v) ≡ some old
        → old.deleting ≡ v.deleting
        → Updated (key v) v s (client.update v s)

module _ {K : Type 0} (key : Unstructured → K) (same : K → K → Bool) where
  abbrev without : K → List Unstructured → List Unstructured
  without k s = select (λ u. not (same (key u) k)) s

  abbrev removed :
      Option Unstructured → K → List Unstructured → Result (Unit {0}) × List Unstructured
  removed none k s = (err (api not_found), s)
  removed (some old) k s = (ok tt, without k s)

  abbrev pub object_memory : ObjectClient (List Unstructured) K Unstructured
  object_memory = record (memory key same) {
    update = λ v s.
        if v.deleting && is_empty v.finalizers
        then removed (view_memory key same s (key v)) (key v) s
        else (memory key same).update v s;
  }

  module _ (same_iff : (a b : K) → (same a b ≡ true) ↔ (a ≡ b)) where
    without_gone : (k : K) (s : List Unstructured) → view_memory key same (without k s) k ≡ none
    without_gone k [] = refl
    without_gone k (u ∷ s) = elim (Bool-cases (same (key u) k)) [
      | inl q ↦ rw q (without_gone k s)
      | inr q ↦ rw (q, q) (without_gone k s)
    ]

    not_same : (u : Unstructured) (k j : K) → same (key u) k ≡ true → j ≢ k → same (key u) j ≡ false
    not_same u k j q n = elim (Bool-cases (same (key u) j)) [
      | inl p ↦ absurd (n (sym ((same_iff (key u) j).0 p) ∙ (same_iff (key u) k).0 q))
      | inr p ↦ p
    ]

    without_others :
        (k j : K) (s : List Unstructured)
        → j ≢ k
        → view_memory key same (without k s) j ≡ view_memory key same s j
    without_others k j [] n = refl
    without_others k j (u ∷ s) n = elim (Bool-cases (same (key u) k)) [
      | inl q ↦ rw (q, not_same u k j q n) (without_others k j s n)
      | inr q ↦ rw (q, without_others k j s n) refl
    ]

    removed-Updated :
        (v : Unstructured) (s : List Unstructured) (o : Option Unstructured)
        → left_by v ≡ none
        → Updated (view_memory key same) (key v) v s (removed o (key v) s)
    removed-Updated v s none e = λ j. refl
    removed-Updated v s (some old) e =
        (without_gone (key v) s ∙ sym e, λ j n. without_others (key v) j s n)

    kept-Updated :
        (v : Unstructured) (s : List Unstructured) (p : Result (Unit {0}) × List Unstructured)
        → left_by v ≡ some v
        → Wrote (view_memory key same) (key v) v s p
        → Updated (view_memory key same) (key v) v s p
    kept-Updated v s (ok _, t) e w = (w.0 ∙ sym e, w.1)
    kept-Updated v s (err _, t) e w = w

    update-Updated :
        (v : Unstructured) (s : List Unstructured)
        → Updated (view_memory key same) (key v) v s (object_memory.update v s)
    update-Updated v s = elim (Bool-cases (v.deleting && is_empty v.finalizers)) [
      | inl q ↦
          let e : left_by v ≡ none = rw q refl in
          rw (q) (removed-Updated v s (view_memory key same s (key v)) e)
      | inr q ↦
          let e : left_by v ≡ some v = rw q refl in
          rw (q)
            (kept-Updated v s ((memory key same).update v s) e (update-Wrote key same same_iff v s))
    ]

    pub object_memory-IsObjectStore : IsObjectStore (view_memory key same) key object_memory
    object_memory-IsObjectStore = record {
      stores = record {
        keyed = (memory-IsStore key same same_iff).keyed;
        reads = (memory-IsStore key same same_iff).reads;
        creates = (memory-IsStore key same same_iff).creates;
        patches = (memory-IsStore key same same_iff).patches;
      };
      updates = λ old v s e d. update-Updated v s;
    }
