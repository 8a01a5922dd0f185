-- ===== src/Lineage/Retention/Pruned.antt =====
-- What `pruneStaleDescendants` of internal/controller/lineage_controller.go leaves in the registry.
use seam_core.Prelude.{
  ◌≡◌, refl, sym, ap, ◌≢◌, Bool, true, false, not, ◌||◌, List, [], ◌∷◌, Option, none, some, arith,
  inl, inr, Bool-cases, Option-cases, is_some, any, select,
}
use seam_core.Kube.Object.{ObjectKey, Unstructured}
use seam_core.Kube.Client.{api, not_found, Result, ok, err, pure, raise, on_result, ◌>>=◌}
use seam_core.Kube.Store.{Wrote, IsStore}
use seam_core.Lineage.Index.{
  DescendantEntry, LineageRetentionPolicy, LineageIndex, key_of_index, with_descendants,
}
use seam_core.Lineage.Registry.{KindKey, LineageClient}
use seam_core.Lineage.Retention.{
  object_of, is_expired, keeps_entry, add_kept, prune_entries, write_pruned,
  prune_stale_descendants,
}

-- A read that the API server answers: the object, or that it is not there.
abbrev pub reply : {S : Type 0} → Option Unstructured → S → Result Unstructured × S
reply none s = (err (api not_found), s)
reply (some obj) s = (ok obj, s)

module _ {S : Type 0} (r : LineageClient S) (present : S → KindKey → Option Unstructured) where
  -- The entry is not expired, or its object is there.
  abbrev pub stays : Option LineageRetentionPolicy → S → DescendantEntry → Bool
  stays p s e = not (is_expired r.now p e) || is_some (present s (object_of e))

  module _ (answers : (k : KindKey) (s : S) → r.objects.fetch k s ≡ reply (present s k) s) where
    keeps_entry-stays :
        (p : Option LineageRetentionPolicy) (e : DescendantEntry) (s : S)
        → keeps_entry r p e s ≡ (ok (stays p s e), s)
    unfolding keeps_entry
    keeps_entry-stays p e s = elim (Bool-cases (is_expired r.now p e)) [
      | inr q ↦ rw q refl
      | inl q ↦ elim (Option-cases (present s (object_of e))) [
        | inl o ↦ rw (q, answers (object_of e) s, o) refl
        | inr o ↦ rw (q, answers (object_of e) s, o.1) refl
      ]
    ]

    add_kept-stays :
        (p : Option LineageRetentionPolicy) (s : S) (e : DescendantEntry)
        (es : List DescendantEntry) (b : Bool)
        → stays p s e ≡ b
        → add_kept r e b (select (stays p s) es, any (λ d. not (stays p s d)) es)
          ≡ (select (stays p s) (e ∷ es), any (λ d. not (stays p s d)) (e ∷ es))
    add_kept-stays p s e es true q = rw q refl
    add_kept-stays p s e es false q = rw q refl

    prune_entries-stays :
        (p : Option LineageRetentionPolicy) (es : List DescendantEntry) (s : S)
        → prune_entries r p es s ≡ (ok (select (stays p s) es, any (λ d. not (stays p s d)) es), s)
    unfolding prune_entries
    prune_entries-stays p [] s = refl
    prune_entries-stays p (e ∷ es) s =
        rw (keeps_entry-stays p e s, prune_entries-stays p es s)
          (ap (λ x. (ok x, s)) (add_kept-stays p s e es (stays p s e) refl))

drop_left : (a b : Bool) → (a || b) ≡ false → b ≡ false
drop_left a b h = ground arith

select_all :
    (f : DescendantEntry → Bool) (es : List DescendantEntry)
    → any (λ e. not (f e)) es ≡ false
    → select f es ≡ es
select_all f [] h = refl
select_all f (e ∷ es) h = elim (Bool-cases (f e)) [
  | inl q ↦ rw (q, select_all f es (drop_left (not (f e)) (any (λ d. not (f d)) es) h)) refl
  | inr q ↦ absurd (ground arith)
]

module _ {S : Type 0} (view : S → ObjectKey → Option LineageIndex) where
  -- The outcome of the pruning of an index: the entries that stay, in their order, in the store and
  -- in the result; an error changes nothing.
  abbrev pub Pruned : (DescendantEntry → Bool) → LineageIndex → S → Result LineageIndex × S → Type 0
  Pruned f ili s (ok new, t) =
      (new ≡ with_descendants ili (select f ili.spec.descendant_registry))
      × (view t (key_of_index ili) ≡ some new)
      × ((j : ObjectKey) → j ≢ key_of_index ili → view t j ≡ view s j)
  Pruned f ili s (err _, t) = (j : ObjectKey) → view t j ≡ view s j

  module _ (r : LineageClient S) (present : S → KindKey → Option Unstructured)
      (answers : (k : KindKey) (s : S) → r.objects.fetch k s ≡ reply (present s k) s)
      (store : IsStore view key_of_index r.indexes) where
    patched :
        (f : DescendantEntry → Bool) (ili : LineageIndex) (s : S) (p : Result (Unit {0}) × S)
        → Wrote view
            (key_of_index ili)
            (with_descendants ili (select f ili.spec.descendant_registry))
            s
            p
        → Pruned f ili s (
            on_result
              (λ _. pure (with_descendants ili (select f ili.spec.descendant_registry)))
              raise
              p)
    patched f ili s (ok _, t) w = (refl, w.0, w.1)
    patched f ili s (err e, t) w = w

    written :
        (f : DescendantEntry → Bool) (ili : LineageIndex) (s : S) (b : Bool)
        → any (λ e. not (f e)) ili.spec.descendant_registry ≡ b
        → view s (key_of_index ili) ≡ some ili
        → Pruned f ili s (write_pruned r ili (select f ili.spec.descendant_registry, b) s)
    written f ili s true q h =
        patched f ili s _
          (store.patches ili (with_descendants ili (select f ili.spec.descendant_registry)) s h)
    written f ili s false q h = (
      ap (with_descendants ili) (sym (select_all f ili.spec.descendant_registry q)),
      h,
      λ j n. refl,
    )

    -- The test of the length saves nothing but calls: an empty registry is written by no call.
    pruned_registry :
        (ili : LineageIndex) (s : S) (es : List DescendantEntry)
        → ili.spec.descendant_registry ≡ es
        → prune_stale_descendants r ili s
          ≡ (prune_entries r ili.spec.retention_policy es >>= write_pruned r ili) s
    unfolding prune_stale_descendants prune_entries
    pruned_registry ili s [] q = rw q refl
    pruned_registry ili s (e ∷ es) q = rw q refl

    -- Over a store of indexes that nobody else writes, and with reads that are answered, pruning
    -- an index that is stored leaves the entries that are not expired or whose object is there, in
    -- their order, in the store and in the result, and no other index changes; an error changes
    -- nothing.
    pub prune_stale_descendants-Pruned :
        (ili : LineageIndex) (s : S)
        → view s (key_of_index ili) ≡ some ili
        → Pruned
            (stays r present ili.spec.retention_policy s)
            ili
            s
            (prune_stale_descendants r ili s)
    prune_stale_descendants-Pruned ili s h =
        let f = stays r present ili.spec.retention_policy s in
        rw
          (
            pruned_registry ili s _ refl,
            prune_entries-stays r present answers ili.spec.retention_policy
                ili.spec.descendant_registry s,
          )
          (written f ili s _ refl h)
