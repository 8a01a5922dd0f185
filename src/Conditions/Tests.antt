-- ===== src/Conditions/Tests.antt =====
-- Concrete inputs for the theorems about pkg/conditions.
use seam_core.Prelude.{
  ◌⊎◌, sort_strings, keys, String, ◌≡◌, refl, ◌≢◌, ◌↔◌, true, false, [], ◌∷◌, List, none, mem,
}
use seam_core.Conditions.Update.{Condition, Setting, set_condition}
use seam_core.Conditions.Constants.{condition_type_phase_failed}
use seam_core.Conditions.Vocabulary.{vocabulary}
use seam_core.Conditions.Validate.{validate_condition, valid_reasons_for, known_condition_types}
use seam_core.Conditions.Membership.{
  validate_condition_iff, validate_condition-unknown, validate_condition-absent,
}
use seam_core.Conditions.Replaced.{Appended, Replaced, set_condition_lem}

abbrev old_ready : Condition
old_ready = record {
  ctype = "Ready";
  status = "False";
  reason = "Pending";
  message = "";
  observed_generation = 1;
  last_transition_time = 5;
}

abbrev now_ready : Setting
now_ready = record {
  ctype = "Ready";
  status = "True";
  reason = "ClusterReady";
  message = "up";
  observed_generation = 2;
}

abbrev degraded : Condition
degraded = record old_ready { ctype = "Degraded" }

abbrev both : List Condition
both = degraded ∷ old_ready ∷ []

validate_condition_iff_example : (validate_condition "Ready" "ClusterReady" ≡ none) ↔ (
    (◌≢◌ {A = String} "Ready" "")
    × (◌≢◌ {A = String} "ClusterReady" "")
    × (mem "ClusterReady" (valid_reasons_for "Ready") ≡ true))
validate_condition_iff_example = validate_condition_iff "Ready" "ClusterReady"

unknown : mem "Nope" known_condition_types ≡ false
unfolding known_condition_types vocabulary sort_strings keys
unknown = refl

validate_condition-unknown_example : validate_condition "Nope" "x" ≢ none
validate_condition-unknown_example = validate_condition-unknown "Nope" "x" unknown

validate_condition-absent_example : validate_condition condition_type_phase_failed "x" ≢ none
validate_condition-absent_example = validate_condition-absent condition_type_phase_failed "x" refl

set_condition_lem_example :
    Appended 9 now_ready both (set_condition 9 now_ready both)
    ⊎ Replaced 9 now_ready both (set_condition 9 now_ready both)
set_condition_lem_example = set_condition_lem 9 now_ready both
