-- ===== src/Lineage/Append/Unique.antt =====
-- The registries of a lineage index name each object once.
use seam_core.Prelude.{
  String, ◌≡◌, refl, sym, ap, ◌∙◌, ◌≢◌, ◌⊎◌, inl, inr, Bool, true, false, ◌||◌, List, [], ◌∷◌, ◌++◌,
  Option, some, arith, Bool-cases, unique, unique-append_one, subst,
}
use mathlib.Core.Option.{some-injective}
use seam_core.Kube.Object.{ObjectKey, Unstructured}
use seam_core.Kube.Memory.{same_key, same_key_iff}
use seam_core.Kube.Client.{Result, ok, err}
use seam_core.Kube.Store.{IsStore}
use seam_core.Lineage.Index.{DescendantEntry, OutcomeEntry, LineageIndex, key_of_index}
use seam_core.Lineage.Registry.{
  KindKey, LineageClient, descendant_uids, descendant_entry, reconcile_descendant,
}
use seam_core.Lineage.Outcome.{
  outcome_uids, outcome_entry, classify_terminal_outcome, reconcile_outcome,
}
use seam_core.Lineage.Append.{
  Same, Extension, Appends, is_descendant, add_descendant, reconcile_descendant-Appends,
}
use seam_core.Lineage.Append.Outcomes.{is_settled, add_outcome, reconcile_outcome-Appends}

pub key_cases : (a b : ObjectKey) → (a ≡ b) ⊎ (a ≢ b)
key_cases a b = elim (Bool-cases (same_key a b)) [
  | inl e ↦ inl ((same_key_iff a b).0 e)
  | inr e ↦ inr (λ q. cc ((same_key_iff a b).1 q))
]

pub uids-append_descendant :
    (es : List DescendantEntry) (e : DescendantEntry)
    → descendant_uids (es ++ e ∷ []) ≡ descendant_uids es ++ e.uid ∷ []
uids-append_descendant [] e = refl
uids-append_descendant (d ∷ es) e = ap (λ us. d.uid ∷ us) (uids-append_descendant es e)

pub uids-append_outcome :
    (es : List OutcomeEntry) (e : OutcomeEntry)
    → outcome_uids (es ++ e ∷ []) ≡ outcome_uids es ++ e.derived_object_uid ∷ []
uids-append_outcome [] e = refl
uids-append_outcome (d ∷ es) e = ap (λ us. d.derived_object_uid ∷ us) (uids-append_outcome es e)

left_false : (a b : Bool) → (a || b) ≡ false → a ≡ false
left_false a b e = ground arith

module _ {S : Type 0} (view : S → ObjectKey → Option LineageIndex) where
  -- Each index of the store has pairwise different UIDs in a registry.
  abbrev pub IsUnique : (LineageIndex → List String) → S → Type 0
  IsUnique uids s =
      (k : ObjectKey) (ili : LineageIndex) → view s k ≡ some ili → unique (uids ili) ≡ true

  abbrev pub descendants : LineageIndex → List String
  descendants ili = descendant_uids ili.spec.descendant_registry

  abbrev pub outcomes : LineageIndex → List String
  outcomes ili = outcome_uids ili.spec.outcome_registry

  -- Each index of the store names an object once in either registry.
  abbrev pub Distinct : S → Type 0
  Distinct s = IsUnique descendants s × IsUnique outcomes s

  pub Same-IsUnique :
      (uids : LineageIndex → List String) (s t : S)
      → Same view s t
      → IsUnique uids s
      → IsUnique uids t
  Same-IsUnique uids s t same h k ili q = h k ili (sym (same k) ∙ q)

  -- A write at one key of an index whose UIDs are different.
  pub written-IsUnique :
      (uids : LineageIndex → List String) (j : ObjectKey) (v : LineageIndex) (s t : S)
      → view t j ≡ some v
      → ((k : ObjectKey) → k ≢ j → view t k ≡ view s k)
      → unique (uids v) ≡ true
      → IsUnique uids s
      → IsUnique uids t
  written-IsUnique uids j v s t at_j elsewhere u h k ili e = elim (key_cases k j) [
    | inl q ↦
        let p : v ≡ ili = some-injective v ili (sym at_j ∙ ap (view t) (sym q) ∙ e) in
        subst (λ l. unique (uids l) ≡ true) p u
    | inr n ↦ h k ili (sym (elsewhere k n) ∙ e)
  ]

  -- Every change of an index that was not done keeps its UIDs different.
  grown :
      (uids : LineageIndex → List String) (done : LineageIndex → Bool)
      (change : LineageIndex → LineageIndex) (s t : S)
      → ((ili : LineageIndex)
          → done ili ≡ false
          → unique (uids ili) ≡ true
          → unique (uids (change ili)) ≡ true)
      → Extension view done change s t
      → IsUnique uids s
      → IsUnique uids t
  grown uids done change s t step x h =
      written-IsUnique uids (key_of_index x.ili) (change x.ili) s t x.after x.elsewhere
        (step x.ili x.open_still (h (key_of_index x.ili) x.ili x.before)) h

  module _ (r : LineageClient S) (store : IsStore view key_of_index r.indexes)
      (quiet : (k : KindKey) (s : S) → Same view s (r.objects.fetch k s).1) where
    Appends-IsUnique :
        (uids : LineageIndex → List String) (done : Unstructured → LineageIndex → Bool)
        (change : Unstructured → LineageIndex → LineageIndex) (s : S) (p : Result Bool × S)
        → ((obj : Unstructured) (ili : LineageIndex)
            → done obj ili ≡ false
            → unique (uids ili) ≡ true
            → unique (uids (change obj ili)) ≡ true)
        → Appends view r store quiet done change s p
        → IsUnique uids s
        → IsUnique uids p.1
    Appends-IsUnique uids done change s (err e, t) step same = Same-IsUnique uids s t same
    Appends-IsUnique uids done change s (ok b, t) step (inl same) = Same-IsUnique uids s t same
    Appends-IsUnique uids done change s (ok b, t) step (inr (obj, x)) =
        grown uids (done obj) (change obj) s t (step obj) x

    -- A reconcile of one registry leaves the other as it is.
    pub reconcile_descendant-outcomes :
        (req : ObjectKey) (s : S)
        → IsUnique outcomes s
        → IsUnique outcomes (reconcile_descendant r req s).1
    reconcile_descendant-outcomes req s =
        Appends-IsUnique outcomes (is_descendant view r store quiet)
          (add_descendant view r store quiet) s _ (λ obj ili d u. u)
          (reconcile_descendant-Appends view r store quiet req s)

    pub reconcile_outcome-descendants :
        (req : ObjectKey) (s : S)
        → IsUnique descendants s
        → IsUnique descendants (reconcile_outcome r req s).1
    reconcile_outcome-descendants req s =
        Appends-IsUnique descendants (is_settled view r store quiet)
          (add_outcome view r store quiet) s _ (λ obj ili d u. u)
          (reconcile_outcome-Appends view r store quiet req s)

    -- Over a store of indexes that nobody else writes and that the calls for other objects leave
    -- as it is, a reconcile of a derived object keeps the UIDs of the descendants pairwise
    -- different in every index.
    pub reconcile_descendant-IsUnique :
        (req : ObjectKey) (s : S)
        → IsUnique descendants s
        → IsUnique descendants (reconcile_descendant r req s).1
    unfolding descendant_entry
    reconcile_descendant-IsUnique req s =
        Appends-IsUnique descendants (is_descendant view r store quiet)
          (add_descendant view r store quiet) s _ descendant_step
          (reconcile_descendant-Appends view r store quiet req s)
      where
        descendant_step :
            (obj : Unstructured) (ili : LineageIndex)
            → is_descendant view r store quiet obj ili ≡ false
            → unique (descendants ili) ≡ true
            → unique (descendants (add_descendant view r store quiet obj ili)) ≡ true
        descendant_step obj ili d u =
            ap unique
              (uids-append_descendant ili.spec.descendant_registry (descendant_entry r obj ili))
            ∙ unique-append_one obj.uid (descendants ili) u d

    -- Over a store of indexes that nobody else writes and that the calls for other objects leave
    -- as it is, a reconcile of outcomes keeps the UIDs of the outcomes pairwise different in every
    -- index.
    pub reconcile_outcome-IsUnique :
        (req : ObjectKey) (s : S)
        → IsUnique outcomes s
        → IsUnique outcomes (reconcile_outcome r req s).1
    unfolding outcome_entry
    reconcile_outcome-IsUnique req s =
        Appends-IsUnique outcomes (is_settled view r store quiet) (add_outcome view r store quiet) s
          _ outcome_step (reconcile_outcome-Appends view r store quiet req s)
      where
        outcome_step :
            (obj : Unstructured) (ili : LineageIndex)
            → is_settled view r store quiet obj ili ≡ false
            → unique (outcomes ili) ≡ true
            → unique (outcomes (add_outcome view r store quiet obj ili)) ≡ true
        outcome_step obj ili d u =
            ap unique (
              uids-append_outcome ili.spec.outcome_registry
                (outcome_entry r obj (classify_terminal_outcome obj)))
            ∙ unique-append_one obj.uid (outcomes ili) u (left_false _ _ d)
