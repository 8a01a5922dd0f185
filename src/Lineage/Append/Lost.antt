-- ===== src/Lineage/Append/Lost.antt =====
-- Two reconciles of internal/controller/descendant_reconciler.go that interleave on one index.
use seam_core.Prelude.{
  String, ◌≡◌, refl, sym, ap, ◌∙◌, ◌≢◌, true, false, List, [], ◌∷◌, ◌++◌, Option, some, arith,
  eq_refl, eq_of_ne, mem, mem-append_one, length, length-append, subst, ◌⊕◌,
}
use seam_core.Kube.Object.{ObjectKey, Unstructured, string_at}
use seam_core.Kube.Client.{Result, ok, err, wrap, pure, raise, on_result, ObjectClient}
use seam_core.Lineage.Labels.{label_root_ili}
use seam_core.Lineage.Index.{DescendantEntry, LineageIndex, key_of_index, with_descendants}
use seam_core.Lineage.Registry.{LineageClient, descendant_uids, descendant_entry, append_descendant}
use seam_core.Lineage.Append.Unique.{uids-append_descendant}

longer : (es : List DescendantEntry) (e : DescendantEntry) → es ≢ es ++ e ∷ []
longer es e q = omega (arith, length-append es (e ∷ []), ap length q)

module _ {S : Type 0} (view : S → ObjectKey → Option LineageIndex) where
  -- The index that is stored has the registry of the new object.
  abbrev pub Replaced : LineageIndex → Result (Unit {0}) × S → Type 0
  Replaced v (ok _, t) =
      (m : LineageIndex) × (view t (key_of_index v) ≡ some m)
      × (m.spec.descendant_registry ≡ v.spec.descendant_registry)
  Replaced v (err _, t) = Unit

  -- A JSON merge patch (RFC 7386) replaces a list that it changes as a whole, whatever list is
  -- stored, and without a resource version the server does not compare the stored object to the old
  -- one.
  abbrev pub IsMergePatch : ObjectClient S ObjectKey LineageIndex → Type 0
  IsMergePatch client =
      (old v stored : LineageIndex) (s : S)
      → view s (key_of_index v) ≡ some stored
      → old.spec.descendant_registry ≢ v.spec.descendant_registry
      → Replaced v (client.patch old v s)

  read_back :
      (prefix : String) (v : LineageIndex) (t : S) (p : Result (Unit {0}) × S)
      → Replaced v p
      → on_result (λ _. pure false) raise (on_result pure (λ e. raise (wrap prefix e)) p)
        ≡ (ok false, t)
      → Replaced v (ok tt, t)
  read_back prefix v t (ok _, u) h e = subst (λ x. Replaced v (ok tt, x)) (ap (λ q. q.1) e) h
  read_back prefix v t (err x, u) h e = absurd (cc (ap (λ q. q.0) e))

  appended :
      (r : LineageClient S) (obj : Unstructured) (ili stored : LineageIndex) (s t : S)
      → IsMergePatch r.indexes
      → view s (key_of_index ili) ≡ some stored
      → mem obj.uid (descendant_uids ili.spec.descendant_registry) ≡ false
      → append_descendant r obj ili s ≡ (ok false, t)
      → Replaced
          (with_descendants ili (ili.spec.descendant_registry ++ descendant_entry r obj ili ∷ []))
          (ok tt, t)
  unfolding append_descendant
  appended r obj ili stored s t merges h m e =
      let es = ili.spec.descendant_registry in
      let v = with_descendants ili (es ++ descendant_entry r obj ili ∷ []) in
      read_back ("patch DescendantRegistry on ILI " ⊕ string_at obj.labels label_root_ili) v t
        (r.indexes.patch ili v s) (merges ili v stored s h (longer es (descendant_entry r obj ili)))
        (rw m at e)

  -- If two reconciles read one index, which has neither of their objects, and both append their entry
  -- without an error, one after the other, the index has the second object and has lost the first.
  pub append_descendant-lost :
      (r q : LineageClient S) (a b : Unstructured) (ili : LineageIndex) (s t u : S)
      → IsMergePatch r.indexes
      → IsMergePatch q.indexes
      → a.uid ≢ b.uid
      → mem a.uid (descendant_uids ili.spec.descendant_registry) ≡ false
      → mem b.uid (descendant_uids ili.spec.descendant_registry) ≡ false
      → view s (key_of_index ili) ≡ some ili
      → append_descendant r a ili s ≡ (ok false, t)
      → append_descendant q b ili t ≡ (ok false, u)
      → (last : LineageIndex) × (view u (key_of_index ili) ≡ some last)
        × (mem a.uid (descendant_uids last.spec.descendant_registry) ≡ false)
        × (mem b.uid (descendant_uids last.spec.descendant_registry) ≡ true)
  unfolding descendant_entry
  append_descendant-lost r q a b ili s t u merges_r merges_q n ma mb h ea eb =
      let first = appended r a ili ili s t merges_r h ma ea in
      let last = appended q b ili first.0 t u merges_q first.1 mb eb in
      let es = ili.spec.descendant_registry in
      let uids = ap descendant_uids last.2 ∙ uids-append_descendant es (descendant_entry q b ili) in
      (
        last.0,
        last.1,
        ap (mem a.uid) uids
            ∙ mem-append_one a.uid b.uid (descendant_uids es)
            ∙ rw (ma, eq_of_ne b.uid a.uid (λ e. n (sym e))) refl,
        ap (mem b.uid) uids
            ∙ mem-append_one b.uid b.uid (descendant_uids es)
            ∙ rw (mb, eq_refl b.uid) refl,
      )
