-- ===== src/Lineage/Control/Bindings.antt =====
-- What LineageReconciler of internal/controller/lineage_controller.go keeps of
-- the indexes in the store.
use seam_core.Prelude.{◌≡◌, refl, sym, ap, ◌∙◌, inl, inr, true, [], Option, some, unique}
use mathlib.Core.Option.{some-injective}
use seam_core.Kube.Object.{ObjectKey}
use seam_core.Kube.Client.{Result, ok, err}
use seam_core.Kube.Store.{Wrote}
use seam_core.Lineage.Index.{LineageIndex, key_of_index}
use seam_core.Lineage.Append.{Same}
use seam_core.Lineage.Append.Unique.{
  key_cases, descendants, outcomes, Distinct, Same-IsUnique, written-IsUnique,
}

-- What the reconciler never changes of an index: all but the descendants and the owner references.
abbrev pub lasting : LineageIndex → LineageIndex
lasting ili = record ili {
  owner_references = [];
  spec = record ili.spec { descendant_registry = [] };
}

module _ {S : Type 0} (view : S → ObjectKey → Option LineageIndex) where
  -- The index at the key is there, with the lasting part.
  abbrev pub HasBinding : ObjectKey → LineageIndex → S → Type 0
  HasBinding j b t = (ili : LineageIndex) × (view t j ≡ some ili) × (lasting ili ≡ b)

  -- Every index of the first store is in the second, with its lasting part, and the registries name
  -- each object once if they did in the first.
  pub record Bound (s t : S) : Type 0 where
    pub stays :
        (j : ObjectKey) (ili : LineageIndex) → view s j ≡ some ili → HasBinding j (lasting ili) t
    pub distinct : Distinct view s → Distinct view t

  pub Same-Bound : {s t : S} → Same view s t → Bound s t
  Same-Bound {s} {t} h = record {
    stays = λ j ili e. (ili, h j ∙ e, refl);
    distinct = λ d. (
      Same-IsUnique view (descendants view) s t h d.0,
      Same-IsUnique view (outcomes view) s t h d.1,
    );
  }

  pub Bound-after : (s t u : S) → Bound s t → Bound t u → Bound s u
  Bound-after s t u h k = record {
    stays = λ j ili e.
        let (mid, at_mid, b) = h.stays j ili e in
        let (last, at_last, c) = k.stays j mid at_mid in (last, at_last, c ∙ b);
    distinct = λ d. k.distinct (h.distinct d);
  }

  pub Same-after : (s t u : S) → Same view s t → Same view t u → Same view s u
  Same-after s t u h k j = k j ∙ h j

  -- A write of an index that keeps its lasting part.
  pub Wrote-Bound :
      (old v : LineageIndex) (s : S) (p : Result (Unit {0}) × S)
      → view s (key_of_index v) ≡ some old
      → lasting v ≡ lasting old
      → (unique (descendants view old) ≡ true → unique (descendants view v) ≡ true)
      → Wrote view (key_of_index v) v s p
      → Bound s p.1
  Wrote-Bound old v s (err e, t) h b u w = Same-Bound w
  Wrote-Bound old v s (ok _, t) h b u w = record {
    stays = λ j ili q. elim (key_cases j (key_of_index v)) [
      | inl e ↦
          let p : old ≡ ili = some-injective old ili (sym h ∙ ap (view s) (sym e) ∙ q) in
          (v, ap (view t) e ∙ w.0, b ∙ ap lasting p)
      | inr n ↦ (ili, w.1 j n ∙ q, refl)
    ];
    distinct = λ d. (
      written-IsUnique view (descendants view) (key_of_index v) v s t w.0 w.1
          (u (d.0 (key_of_index v) old h)) d.0,
      written-IsUnique view (outcomes view) (key_of_index v) v s t w.0 w.1
          (ap (λ l. unique (outcomes view l)) b ∙ d.1 (key_of_index v) old h) d.1,
    );
  }
