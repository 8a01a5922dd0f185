-- ===== src/Conditions/Validate.antt =====
-- The functions of pkg/conditions/validate.go.
use seam_core.Prelude.{
  String, ◌≡◌, refl, List, [], Option, none, some, ◌==◌, if◌then◌else◌, get, keys, sort_strings,
  join, quote, ◌⊕◌,
}
use seam_core.Conditions.Vocabulary.{Set, vocabulary}

unfoldable pub sorted_keys : Set → List String
sorted_keys m = sort_strings (keys m)

-- The test of the reason against the set of the type. A text is an error, `none` is nil.
unfoldable pub check_reason : String → String → Option Set → Option String
check_reason type reason none = some (
    "conditions.ValidateCondition: unknown condition type "
    ⊕ quote type
    ⊕ "; not declared in the Seam condition vocabulary")
check_reason type reason (some rs) = elim (get rs reason) [
  | some _ ↦ none
  | none ↦ some (
      "conditions.ValidateCondition: reason "
      ⊕ quote reason
      ⊕ " is not valid for condition type "
      ⊕ quote type
      ⊕ "; valid reasons: ["
      ⊕ join (sorted_keys rs) ", "
      ⊕ "]")
]

unfoldable pub validate_condition : String → String → Option String
validate_condition type reason =
    if type == ""
    then some "conditions.ValidateCondition: conditionType must not be empty"
    else if reason == ""
    then some
        ("conditions.ValidateCondition: reason must not be empty for conditionType " ⊕ quote type)
    else check_reason type reason (get vocabulary type)

unfoldable pub known_condition_types : List String
known_condition_types = sort_strings (keys vocabulary)

-- The reasons of an entry of the vocabulary; nil and the empty slice are not told apart.
abbrev pub reasons_of : Option Set → List String
reasons_of none = []
reasons_of (some m) = sorted_keys m

unfoldable pub valid_reasons_for : String → List String
valid_reasons_for type = reasons_of (get vocabulary type)

test_validate :
    (validate_condition "Ready" "ClusterReady" ≡ none)
    × (validate_condition "Ready" ""
        ≡ some "conditions.ValidateCondition: reason must not be empty for conditionType \"Ready\"")
    × (validate_condition "WebhookRegistered" "x"
        ≡ some
            "conditions.ValidateCondition: reason \"x\" is not valid for condition type \"WebhookRegistered\"; valid reasons: [WebhookRegistered]")
unfolding validate_condition check_reason get vocabulary quote sorted_keys sort_strings keys join
test_validate = (refl, refl, refl)
