-- ===== src/Lineage/Control/Pruning.antt =====
-- What the pruning of internal/controller/lineage_controller.go keeps of the indexes in the store.
use seam_core.Prelude.{
  ◌≡◌, refl, sym, ◌∙◌, inl, inr, Bool, true, false, not, List, [], ◌∷◌, Option, some, Bool-cases,
  String, arith, unique, mem, subst,
}
use seam_core.Kube.Object.{ObjectKey}
use seam_core.Kube.Client.{Result, ok, err, is_not_found, pure, raise, on_result, ◌>>=◌}
use seam_core.Kube.Store.{Wrote, IsStore}
use seam_core.Lineage.Index.{
  DescendantEntry, LineageRetentionPolicy, LineageIndex, key_of_index, with_descendants,
}
use seam_core.Lineage.Registry.{KindKey, LineageClient, descendant_uids}
use seam_core.Lineage.Retention.{
  object_of, is_expired, keeps_entry, prune_entries, add_kept, write_pruned,
  prune_stale_descendants,
}
use seam_core.Lineage.Append.{Same}
use seam_core.Lineage.Control.Chain.{chain}
use seam_core.Lineage.Control.Bindings.{Bound, Same-Bound, Bound-after, Wrote-Bound, Same-after}

-- Entries among the given ones: their UIDs are different if those of the given ones are.
abbrev Fewer : List DescendantEntry → List DescendantEntry → Type 0
Fewer es kept =
    (unique (descendant_uids es) ≡ true → unique (descendant_uids kept) ≡ true)
    × ((u : String) → mem u (descendant_uids es) ≡ false → mem u (descendant_uids kept) ≡ false)

Fewer-kept :
    (e : DescendantEntry) (es kept : List DescendantEntry)
    → Fewer es kept
    → Fewer (e ∷ es) (e ∷ kept)
Fewer-kept e es kept f = (λ h. ground (arith, f.0, f.1 e.uid), λ u h. ground (arith, f.1 u))

Fewer-dropped :
    (e : DescendantEntry) (es kept : List DescendantEntry) → Fewer es kept → Fewer (e ∷ es) kept
Fewer-dropped e es kept f = (λ h. ground (arith, f.0), λ u h. ground (arith, f.1 u))

module _ {S : Type 0} (view : S → ObjectKey → Option LineageIndex) (r : LineageClient S)
    (store : IsStore view key_of_index r.indexes)
    (quiet : (k : KindKey) (s : S) → Same view s (r.objects.fetch k s).1) where
  keeps_entry-Same :
      (p : Option LineageRetentionPolicy) (e : DescendantEntry) (s : S)
      → Same view s (keeps_entry r p e s).1
  unfolding keeps_entry
  keeps_entry-Same p e s = elim (Bool-cases (is_expired r.now p e)) [
    | inr q ↦ rw q (λ j. refl)
    | inl q ↦ rw q (
        chain (Same view) (Same-after view) (λ _. pure true)
          (λ error. pure (not (is_not_found error))) s _ (quiet (object_of e) s) (λ a t j. refl)
          (λ e t j. refl))
  ]

  -- The outcome of the loop: the indexes are as they were, and the entries that stay are among the
  -- given ones.
  abbrev Left : List DescendantEntry → S → Result (List DescendantEntry × Bool) × S → Type 0
  Left es s (ok (kept, _), t) = Same view s t × Fewer es kept
  Left es s (err _, t) = Same view s t

  add_kept-Left :
      (e : DescendantEntry) (es : List DescendantEntry) (keep : Bool) (s t : S)
      (p : Result (List DescendantEntry × Bool) × S)
      → Same view s t
      → Left es t p
      → Left (e ∷ es) s (on_result (λ rest. pure (add_kept r e keep rest)) raise p)
  add_kept-Left e es true s t (ok (kept, b), u) h l =
      (Same-after view s t u h l.0, Fewer-kept e es kept l.1)
  add_kept-Left e es false s t (ok (kept, b), u) h l =
      (Same-after view s t u h l.0, Fewer-dropped e es kept l.1)
  add_kept-Left e es keep s t (err x, u) h l = Same-after view s t u h l

  entry-Left :
      (p : Option LineageRetentionPolicy) (e : DescendantEntry) (es : List DescendantEntry) (s : S)
      (q : Result Bool × S)
      → Same view s q.1
      → ((t : S) → Left es t (prune_entries r p es t))
      → Left (e ∷ es) s (
          on_result
            (λ keep. prune_entries r p es >>= (λ rest. pure (add_kept r e keep rest)))
            raise
            q)
  entry-Left p e es s (ok keep, t) h l = add_kept-Left e es keep s t _ h (l t)
  entry-Left p e es s (err x, t) h l = h

  prune_entries-Left :
      (p : Option LineageRetentionPolicy) (es : List DescendantEntry) (s : S)
      → Left es s (prune_entries r p es s)
  unfolding prune_entries
  prune_entries-Left p [] s = ((λ j. refl), ((λ h. h), λ u h. h))
  prune_entries-Left p (e ∷ es) s =
      entry-Left p e es s (keeps_entry r p e s) (keeps_entry-Same p e s) (prune_entries-Left p es)

  -- The outcome of the pruning: the lasting parts stay, and the result is the index that is stored.
  abbrev pub Kept : LineageIndex → S → Result LineageIndex × S → Type 0
  Kept ili s (ok new, t) =
      Bound view s t
      × (view t (key_of_index ili) ≡ some new)
      × (key_of_index new ≡ key_of_index ili)
  Kept ili s (err _, t) = Bound view s t

  patched_Kept :
      (ili new : LineageIndex) (s : S) (p : Result (Unit {0}) × S)
      → view s (key_of_index ili) ≡ some ili
      → key_of_index new ≡ key_of_index ili
      → Bound view s p.1
      → Wrote view (key_of_index ili) new s p
      → Kept ili s (on_result (λ _. pure new) raise p)
  patched_Kept ili new s (ok _, t) h k b w = (b, w.0, k)
  patched_Kept ili new s (err e, t) h k b w = b

  Kept-since :
      (ili : LineageIndex) (s t : S) (p : Result LineageIndex × S)
      → Same view s t
      → Kept ili t p
      → Kept ili s p
  Kept-since ili s t (ok new, u) q k = (Bound-after view s t u (Same-Bound view q) k.0, k.1, k.2)
  Kept-since ili s t (err e, u) q k = Bound-after view s t u (Same-Bound view q) k

  patch-Kept :
      (ili : LineageIndex) (kept : List DescendantEntry) (s : S)
      → view s (key_of_index ili) ≡ some ili
      → Fewer ili.spec.descendant_registry kept
      → Kept ili s (
          on_result
            (λ _. pure (with_descendants ili kept))
            raise
            (r.indexes.patch ili (with_descendants ili kept) s))
  patch-Kept ili kept s h f =
      let w = store.patches ili (with_descendants ili kept) s h in
      patched_Kept ili (with_descendants ili kept) s _ h refl
        (Wrote-Bound view ili (with_descendants ili kept) s _ h refl f.0 w) w

  write_pruned-Kept :
      (ili : LineageIndex) (s : S) (p : Result (List DescendantEntry × Bool) × S)
      → view s (key_of_index ili) ≡ some ili
      → Left ili.spec.descendant_registry s p
      → Kept ili s (on_result (write_pruned r ili) raise p)
  write_pruned-Kept ili s (ok (kept, false), u) h q =
      (Same-Bound view q.0, q.0 (key_of_index ili) ∙ h, refl)
  write_pruned-Kept ili s (ok (kept, true), u) h q =
      Kept-since ili s u _ q.0 (patch-Kept ili kept u (q.0 (key_of_index ili) ∙ h) q.1)
  write_pruned-Kept ili s (err e, u) h q = Same-Bound view q

  -- Pruning keeps the lasting part of every index, and its result is the index that is stored.
  pub prune-Kept :
      (ili : LineageIndex) (s : S)
      → view s (key_of_index ili) ≡ some ili
      → Kept ili s (prune_stale_descendants r ili s)
  unfolding prune_stale_descendants
  prune-Kept ili s h = go ili.spec.descendant_registry refl
    where
      go :
          (es : List DescendantEntry)
          → ili.spec.descendant_registry ≡ es
          → Kept ili s (prune_stale_descendants r ili s)
      go [] q = rw (prune_stale_descendants, q) (Same-Bound view (λ j. refl), h, refl)
      go (e ∷ es) q =
          rw (prune_stale_descendants, q)
            (write_pruned-Kept ili s _ h (
              subst (λ ds. Left ds s (prune_entries r ili.spec.retention_policy (e ∷ es) s)) (sym q)
                (prune_entries-Left ili.spec.retention_policy (e ∷ es) s)))
