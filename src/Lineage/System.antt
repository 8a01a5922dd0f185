-- ===== src/Lineage/System.antt =====
-- The three reconcilers of lineage in internal/controller on one store of indexes: the runs of any of
-- them, for any kinds and objects, one after the other.
pub mod Distinct
use seam_core.Prelude.{
  ℕ, String, ◌≡◌, refl, sym, ap, ◌∙◌, inl, inr, Bool, List, [], ◌∷◌, ◌++◌, Option, some, All,
}
use mathlib.Core.List.{append-nil, append_assoc}
use mathlib.Core.Option.{some-injective}
use seam_core.Kube.Object.{ObjectKey, Unstructured}
use seam_core.Kube.Client.{Result, ok, err}
use seam_core.Kube.Store.{IsStore}
use seam_core.Lineage.Index.{LineageIndex, OutcomeEntry, key_of_index}
use seam_core.Lineage.Registry.{LineageClient, reconcile_descendant}
use seam_core.Lineage.Outcome.{reconcile_outcome, outcome_entry, classify_terminal_outcome}
use seam_core.Lineage.Control.{reconcile_lineage}
use seam_core.Lineage.Append.{
  Same, Extension, Appends, is_descendant, add_descendant, reconcile_descendant-Appends,
}
use seam_core.Lineage.Append.Outcomes.{is_settled, add_outcome, reconcile_outcome-Appends}
use seam_core.Lineage.Append.Unique.{key_cases}
use seam_core.Lineage.Control.Bindings.{Bound}
use seam_core.Lineage.Control.Settle.{IsQuiet}
use seam_core.Lineage.Control.Whole.{reconcile_lineage-Bound}

-- A run of a reconciler, with its client and its request.
pub data Run (S : Type 0) : Type 0 where
  lineage_run descendant_run outcome_run : LineageClient S → ObjectKey → Run S

abbrev pub client_of : {S : Type 0} → Run S → LineageClient S
client_of (lineage_run r req) = r
client_of (descendant_run r req) = r
client_of (outcome_run r req) = r

module _ {S : Type 0} (rfc3339 : ℕ → String) where
  -- The store behind a run, whatever its result.
  abbrev pub run : Run S → S → S
  run (lineage_run r req) s = (reconcile_lineage r rfc3339 req s).1
  run (descendant_run r req) s = (reconcile_descendant r req s).1
  run (outcome_run r req) s = (reconcile_outcome r req s).1

  unfoldable pub run_all : List (Run S) → S → S
  run_all [] s = s
  run_all (x ∷ xs) s = run_all xs (run x s)

-- All of an index but its two registries and its owner references.
abbrev pub fixed : LineageIndex → LineageIndex
fixed ili = record ili {
  owner_references = [];
  spec = record ili.spec { descendant_registry = []; outcome_registry = [] };
}

module _ {S : Type 0} (view : S → ObjectKey → Option LineageIndex) where
  -- The index at the key is a later state of the given one: the fixed part is the same, and outcomes
  -- have only been appended.
  pub record Later (j : ObjectKey) (ili : LineageIndex) (t : S) : Type 0 where
    pub new : LineageIndex
    pub there : view t j ≡ some new
    pub same : fixed new ≡ fixed ili
    pub more : List OutcomeEntry
    pub appended : new.spec.outcome_registry ≡ ili.spec.outcome_registry ++ more

  abbrev pub Lasts : S → S → Type 0
  Lasts s t = (j : ObjectKey) (ili : LineageIndex) → view s j ≡ some ili → Later j ili t

  unchanged : (j : ObjectKey) (ili : LineageIndex) (t : S) → view t j ≡ some ili → Later j ili t
  unchanged j ili t e = record {
    new = ili;
    there = e;
    same = refl;
    more = [];
    appended = sym (append-nil ili.spec.outcome_registry);
  }

  Same-Lasts : (s t : S) → Same view s t → Lasts s t
  Same-Lasts s t h j ili e = unchanged j ili t (h j ∙ e)

  Lasts-after : (s t u : S) → Lasts s t → Lasts t u → Lasts s u
  Lasts-after s t u h k j ili e =
      let m = h j ili e in
      let n = k j m.new m.there in
      record {
        new = n.new;
        there = n.there;
        same = n.same ∙ m.same;
        more = m.more ++ n.more;
        appended =
            n.appended
            ∙ ap (λ os. os ++ n.more) m.appended
            ∙ append_assoc ili.spec.outcome_registry m.more n.more;
      }

  Bound-Lasts : (s t : S) → Bound view s t → Lasts s t
  Bound-Lasts s t h j ili e =
      let (new, there, same) = h.stays j ili e in
      record {
        new = new;
        there = there;
        same = ap fixed same;
        more = [];
        appended =
            ap (λ (l : LineageIndex). l.spec.outcome_registry) same
            ∙ sym (append-nil ili.spec.outcome_registry);
      }

  Extension-Lasts :
      (done : LineageIndex → Bool) (change : LineageIndex → LineageIndex)
      → (more : LineageIndex → List OutcomeEntry)
      → ((ili : LineageIndex) → fixed (change ili) ≡ fixed ili)
      → ((ili : LineageIndex)
          → (change ili).spec.outcome_registry ≡ ili.spec.outcome_registry ++ more ili)
      → (s t : S) → Extension view done change s t
      → Lasts s t
  Extension-Lasts done change more keeps adds s t x j ili e =
      elim (key_cases j (key_of_index x.ili)) [
        | inl q ↦
            let p : x.ili ≡ ili =
              some-injective x.ili ili (sym x.before ∙ ap (view s) (sym q) ∙ e) in
            record {
              new = change x.ili;
              there = ap (view t) q ∙ x.after;
              same = keeps x.ili ∙ ap fixed p;
              more = more x.ili;
              appended =
                  adds x.ili ∙ ap (λ (l : LineageIndex). l.spec.outcome_registry ++ more x.ili) p;
            }
        | inr n ↦ unchanged j ili t (x.elsewhere j n ∙ e)
      ]

  module _ (r : LineageClient S) (store : IsStore view key_of_index r.indexes)
      (quiet : IsQuiet view r) where
    Appends-Lasts :
        (done : Unstructured → LineageIndex → Bool)
        → (change : Unstructured → LineageIndex → LineageIndex)
        → (more : Unstructured → LineageIndex → List OutcomeEntry)
        → ((obj : Unstructured) (ili : LineageIndex) → fixed (change obj ili) ≡ fixed ili)
        → ((obj : Unstructured) (ili : LineageIndex)
            → (change obj ili).spec.outcome_registry ≡ ili.spec.outcome_registry ++ more obj ili)
        → (s : S) (p : Result Bool × S) → Appends view r store quiet.fetches done change s p
        → Lasts s p.1
    Appends-Lasts done change more keeps adds s (err e, t) h = Same-Lasts s t h
    Appends-Lasts done change more keeps adds s (ok b, t) (inl h) = Same-Lasts s t h
    Appends-Lasts done change more keeps adds s (ok b, t) (inr (obj, x)) =
        Extension-Lasts (done obj) (change obj) (more obj) (keeps obj) (adds obj) s t x

    descendant-Lasts : (req : ObjectKey) (s : S) → Lasts s (reconcile_descendant r req s).1
    descendant-Lasts req s =
        Appends-Lasts (is_descendant view r store quiet.fetches)
          (add_descendant view r store quiet.fetches) (λ obj ili. []) (λ obj ili. refl)
          (λ obj ili. sym (append-nil ili.spec.outcome_registry)) s _
          (reconcile_descendant-Appends view r store quiet.fetches req s)

    outcome-Lasts : (req : ObjectKey) (s : S) → Lasts s (reconcile_outcome r req s).1
    outcome-Lasts req s =
        Appends-Lasts (is_settled view r store quiet.fetches)
          (add_outcome view r store quiet.fetches)
          (λ obj ili. outcome_entry r obj (classify_terminal_outcome obj) ∷ []) (λ obj ili. refl)
          (λ obj ili. refl) s _ (reconcile_outcome-Appends view r store quiet.fetches req s)

  -- The client of a run stands before a store that nobody else writes.
  pub record IsFair (x : Run S) : Type 0 where
    pub store : IsStore view key_of_index (client_of x).indexes
    pub quiet : IsQuiet view (client_of x)

  run-Lasts : (rfc3339 : ℕ → String) (x : Run S) (s : S) → IsFair x → Lasts s (run rfc3339 x s)
  run-Lasts rfc3339 (lineage_run r req) s f =
      Bound-Lasts s _ (reconcile_lineage-Bound view r rfc3339 f.store f.quiet req s)
  run-Lasts rfc3339 (descendant_run r req) s f = descendant-Lasts r f.store f.quiet req s
  run-Lasts rfc3339 (outcome_run r req) s f = outcome-Lasts r f.store f.quiet req s

  -- Over any sequence of runs of the three reconcilers, one after the other, on a store of indexes
  -- that nobody else writes and that the calls for other objects leave as it is, every index stays:
  -- all but its registries and its owner references is as it was, and no outcome is lost or moved,
  -- whatever the results of the runs.
  pub run_all-Lasts :
      (rfc3339 : ℕ → String) (xs : List (Run S)) (s : S)
      → All IsFair xs
      → Lasts s (run_all rfc3339 xs s)
  unfolding run_all
  run_all-Lasts rfc3339 [] s f = Same-Lasts s s (λ j. refl)
  run_all-Lasts rfc3339 (x ∷ xs) s f =
      Lasts-after s (run rfc3339 x s) _ (run-Lasts rfc3339 x s f.0)
        (run_all-Lasts rfc3339 xs (run rfc3339 x s) f.1)
