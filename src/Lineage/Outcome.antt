-- ===== src/Lineage/Outcome.antt =====
-- internal/controller/outcome_reconciler.go: terminal outcomes of derived objects.
pub mod Verdict
use seam_core.Prelude.{
  ℕ, String, Bool, true, false, ◌||◌, not, List, [], ◌∷◌, ◌++◌, map, Option, none, some, ◌==◌, ◌⊕◌,
  if◌then◌else◌, mem, to_lower, contains, Dict,
}
use seam_core.Kube.Object.{
  ObjectKey, Unstructured, Value, RawCondition, fields, malformed, text_at, string_at,
}
use seam_core.Kube.Client.{
  Error, Result, ok, err, is_not_found, wrap, Api, pure, raise, try_or, within, ◌>>◌,
}
use seam_core.Lineage.Labels.{label_root_ili}
use seam_core.Lineage.Index.{
  outcome_type_succeeded, outcome_type_failed, outcome_type_drifted, outcome_type_superseded,
  OutcomeEntry, LineageIndex, with_outcomes,
}
use seam_core.Lineage.Registry.{LineageClient, seconds, index_key_of, object_missing}

-- The three results of `classifyTerminalOutcome`.
pub record Classified : Type 0 where
  pub outcome_type : String
  pub reason : String
  pub message : String

abbrev pub not_terminal : Classified
not_terminal = record { outcome_type = ""; reason = ""; message = "" }

-- The outcome of a Ready condition that is False.
unfoldable pub classify_not_ready : String → String
classify_not_ready reason =
    let reason_lower = to_lower reason in
    if contains reason_lower "drift"
    then outcome_type_drifted
    else if contains reason_lower "superseded"
    then outcome_type_superseded
    else outcome_type_failed

-- The outcome that one condition settles, by its type, status and reason; "" goes on to the next.
unfoldable pub classify_condition : String → String → String → String
classify_condition type status reason =
    if type == "Ready"
    then (if status == "True"
        then outcome_type_succeeded
        else if status == "False"
        then classify_not_ready reason
        else "")
    else if type == "Drifted"
    then (if status == "True" then outcome_type_drifted else "")
    else if type == "Succeeded"
    then (if status == "True" then outcome_type_succeeded else "")
    else if type == "Failed"
    then (if status == "True" then outcome_type_failed else "")
    else ""

abbrev pub outcome_of : Dict Value → String
outcome_of m = classify_condition (text_at m "type") (text_at m "status") (text_at m "reason")

unfoldable pub classify_conditions : List RawCondition → Classified
classify_conditions [] = not_terminal
classify_conditions (malformed ∷ cs) = classify_conditions cs
classify_conditions (fields m ∷ cs) =
    let rest = classify_conditions cs in
    let outcome = outcome_of m in
    if outcome == "" then rest else record {
      outcome_type = outcome;
      reason = text_at m "reason";
      message = text_at m "message";
    }

unfoldable pub classify_terminal_outcome : Unstructured → Classified
unfolding classify_conditions
classify_terminal_outcome obj = classify_conditions obj.conditions

abbrev pub outcome_uids : List OutcomeEntry → List String
outcome_uids es = map (λ e. e.derived_object_uid) es

module _ {S : Type 0} (r : LineageClient S) where
  unfoldable pub outcome_entry : Unstructured → Classified → OutcomeEntry
  outcome_entry obj c = record {
    derived_object_uid = obj.uid;
    outcome_type = c.outcome_type;
    outcome_timestamp = seconds r.now;
    outcome_ref = c.reason;
    outcome_detail = c.message;
  }

  -- The rest of `Reconcile` once the index is fetched: steps 4 to 6.
  unfoldable pub append_outcome : Unstructured → LineageIndex → Api S Bool
  append_outcome obj ili =
      if mem obj.uid (outcome_uids ili.spec.outcome_registry)
      then pure false
      else if (classify_terminal_outcome obj).outcome_type == ""
      then pure false
      else (within ("patch outcomeRegistry on ILI " ⊕ string_at obj.labels label_root_ili) (
            r.indexes.patch ili (
              with_outcomes ili (
                ili.spec.outcome_registry
                ++ outcome_entry obj (classify_terminal_outcome obj) ∷ [])))
          >> pure false)

  unfoldable pub outcome_index_missing : Unstructured → Error → Api S Bool
  outcome_index_missing obj e =
      if is_not_found e
      then pure false
      else raise (wrap ("get ILI " ⊕ string_at obj.labels label_root_ili) e)

  unfoldable pub register_outcome : Unstructured → Api S Bool
  register_outcome obj =
      if string_at obj.labels label_root_ili == ""
      then pure false
      else try_or (r.indexes.fetch (index_key_of obj)) (append_outcome obj)
          (outcome_index_missing obj)

  -- OutcomeReconciler.Reconcile; the request is never queued again.
  unfoldable pub reconcile_outcome : ObjectKey → Api S Bool
  reconcile_outcome req =
      try_or (r.objects.fetch (r.gvk, req)) register_outcome (object_missing r req)
