-- ===== src/E2e/Reading.antt =====
-- The conditions that pkg/e2e/poller.go reads from an object, and their text.
use seam_core.Prelude.{
  String, List, [], ◌∷◌, map, Option, some, ◌==◌, if◌then◌else◌, join, ◌⊕◌, Dict, get,
}
use seam_core.Kube.Object.{RawCondition, fields, malformed, Value, text_at}

-- An object as the dynamic client returns it. A field is a map or anything else, and so a field of
-- `status` is an array or anything else.
pub data StatusField : Type 0 where
  array : List RawCondition → StatusField
  no_array : StatusField

pub data ObjectField : Type 0 where
  object : Dict StatusField → ObjectField
  no_object : ObjectField

-- The items of `status.conditions` that are maps, with the first type that is not "".
abbrev first_type : String → Dict Value → String
first_type first c = if first == "" then text_at c "type" else first

unfoldable pub scan_conditions : List RawCondition → String → List (Dict Value) × String
unfolding text_at
scan_conditions [] first = ([], first)
scan_conditions (malformed ∷ cs) first = scan_conditions cs first
scan_conditions (fields c ∷ cs) first =
    let rest = scan_conditions cs (first_type first c) in (c ∷ rest.0, rest.1)

abbrev raw_of : Option StatusField → List RawCondition
raw_of (some (array cs)) = cs
raw_of _ = []

abbrev of_status : Option ObjectField → List (Dict Value) × String
of_status (some (object status)) = scan_conditions (raw_of (get status "conditions")) ""
of_status _ = ([], "")

unfoldable pub extract_conditions : Dict ObjectField → List (Dict Value) × String
unfolding scan_conditions get
extract_conditions obj = of_status (get obj "status")

-- The status of the first condition of the type, "" if there is none.
unfoldable pub status_for : List (Dict Value) → String → String
unfolding text_at
status_for [] type = ""
status_for (c ∷ cs) type =
    let rest = status_for cs type in if text_at c "type" == type then text_at c "status" else rest

unfoldable pub format_condition : Dict Value → String
unfolding text_at
format_condition c = text_at c "type" ⊕ "=" ⊕ text_at c "status" ⊕ "(" ⊕ text_at c "reason" ⊕ ")"

unfoldable pub format_conditions : List (Dict Value) → String
unfolding format_condition join
format_conditions [] = "<none>"
format_conditions (c ∷ cs) = join (map format_condition (c ∷ cs)) ", "
