-- ===== src/Conditions/Membership.antt =====
-- When pkg/conditions/validate.go accepts a pair of a condition type and a reason.
use mathlib.Core.Bool.{false≢true}
use seam_core.Prelude.{
  String, ◌≡◌, refl, sym, ap, ◌∙◌, ◌≢◌, ◌↔◌, inl, inr, Bool, true, false, ◌&&◌, List, [], ◌∷◌,
  Option, none, some, arith, ◌==◌, eq_iff, eq_cases, Option-cases, get, keys, mem, mem-keys,
  mem-sort_strings, sort_strings, is_some, not, subst,
}
use seam_core.Conditions.Constants.{
  condition_type_version_upgrade_pending, condition_type_hardening_applied,
  condition_type_version_regression_blocked, condition_type_bootstrapped,
  condition_type_phase_failed, condition_type_screen_provider_not_implemented,
  condition_type_kubeconfig_unavailable,
}
use seam_core.Conditions.Vocabulary.{Set, vocabulary}
use seam_core.Conditions.Validate.{
  reasons_of, sorted_keys, check_reason, validate_condition, known_condition_types,
  valid_reasons_for,
}

mem-sorted_keys : (m : Set) (r : String) → mem r (sorted_keys m) ≡ is_some (get m r)
unfolding sorted_keys
mem-sorted_keys m r = mem-sort_strings r (keys m) ∙ mem-keys m r

ne_of_test : (s : String) → (s == "") ≡ false → s ≢ ""
ne_of_test s p q = cc ((eq_iff s "").1 q)

check_reason_iff :
    (t r : String) (o : Option Set) → (check_reason t r o ≡ none) ↔ (mem r (reasons_of o) ≡ true)
unfolding check_reason
check_reason_iff t r none = ((λ e. cc), (λ e. cc))
check_reason_iff t r (some m) = rw (mem-sorted_keys m r) (elim (Option-cases (get m r)) [
  | inl e ↦ rw (e, check_reason) ((λ q. cc), (λ q. cc))
  | inr e ↦ rw (e.1, check_reason) ((λ q. refl), (λ q. refl))
])

-- `ValidateCondition` returns nil for the reasons that `ValidReasonsFor` lists for the type, if
-- neither text is empty, and for no others.
pub validate_condition_iff :
    (t r : String)
    → (validate_condition t r ≡ none) ↔ ((t ≢ "") × (r ≢ "") × (mem r (valid_reasons_for t) ≡ true))
unfolding validate_condition valid_reasons_for
validate_condition_iff t r = elim (eq_cases t "") [
  | inl p ↦ rw ((eq_iff t "").1 p) ((λ e. cc), (λ h. absurd (h.0 p)))
  | inr p ↦ elim (eq_cases r "") [
    | inl q ↦ rw (p, (eq_iff r "").1 q) ((λ e. cc), (λ h. absurd (h.1 q)))
    | inr q ↦
        rw (p, q)
          (
            (λ e. (ne_of_test t p, ne_of_test r q, (check_reason_iff t r (get vocabulary t)).0 e)),
            (λ h. (check_reason_iff t r (get vocabulary t)).1 h.2),
          )
  ]
]

-- `KnownConditionTypes` lists the types that have an entry in the vocabulary, and no others.
pub mem-known_condition_types :
    (t : String) → mem t known_condition_types ≡ is_some (get vocabulary t)
unfolding known_condition_types
mem-known_condition_types t = mem-sort_strings t (keys vocabulary) ∙ mem-keys vocabulary t

not_listed :
    (t r : String) → mem r (valid_reasons_for t) ≡ true → mem t known_condition_types ≡ false → ⊥
unfolding valid_reasons_for
not_listed t r h e = elim (Option-cases (get vocabulary t)) [
  | inl q ↦ false≢true (ap (λ o. mem r (reasons_of o)) (sym q) ∙ h)
  | inr q ↦ false≢true (sym e ∙ mem-known_condition_types t ∙ ap is_some q.1)
]

-- A type that `KnownConditionTypes` does not list is refused with every reason.
pub validate_condition-unknown :
    (t r : String) → mem t known_condition_types ≡ false → validate_condition t r ≢ none
validate_condition-unknown t r e p = not_listed t r ((validate_condition_iff t r).0 p).2 e

-- Seven condition types that conditions.go declares.
abbrev pub absent_types : List String
absent_types =
    condition_type_version_upgrade_pending ∷ condition_type_hardening_applied
    ∷ condition_type_version_regression_blocked ∷ condition_type_bootstrapped
    ∷ condition_type_phase_failed ∷ condition_type_screen_provider_not_implemented
    ∷ condition_type_kubeconfig_unavailable ∷ []

none_known : List String → Bool
none_known [] = true
none_known (t ∷ ts) = not (mem t known_condition_types) && none_known ts

absent_unknown : none_known absent_types ≡ true
unfolding none_known known_condition_types vocabulary sort_strings keys
absent_unknown = refl

first_of : (a b : Bool) → (not a && b) ≡ true → a ≡ false
first_of true b e = cc
first_of false b e = refl

unknown_in :
    (t : String) (ts : List String)
    → none_known ts ≡ true
    → mem t ts ≡ true
    → mem t known_condition_types ≡ false
unfolding none_known
unknown_in t [] h e = cc
unknown_in t (u ∷ ts) h e = elim (eq_cases u t) [
  | inl q ↦ subst (λ x. mem x known_condition_types ≡ false) q (first_of _ _ h)
  | inr q ↦ ground (arith, unknown_in t ts)
]

-- Each of seven condition types that conditions.go declares is refused with every reason.
pub validate_condition-absent :
    (t r : String) → mem t absent_types ≡ true → validate_condition t r ≢ none
validate_condition-absent t r e =
    validate_condition-unknown t r (unknown_in t absent_types absent_unknown e)
