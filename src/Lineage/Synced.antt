-- ===== src/Lineage/Synced.antt =====
-- The LineageSynced condition of a root declaration in internal/controller/lineage_controller.go.
pub mod Update
use seam_core.Prelude.{
  ℕ, String, Bool, true, false, ◌&&◌, List, [], ◌∷◌, ◌++◌, ◌==◌, ◌⊕◌, if◌then◌else◌, quote, any,
  Dict,
}
use seam_core.Kube.Object.{
  ObjectKey, Unstructured, key_of, Value, text, number, RawCondition, fields, malformed, is_text,
}
use seam_core.Kube.Client.{Error, Result, ok, err, Api, pure, within, ◌>>=◌}
use seam_core.Conditions.Constants.{condition_type_lineage_synced}
use seam_core.Lineage.Registry.{LineageClient}

abbrev pub reason_lineage_index_created : String
reason_lineage_index_created = "LineageIndexCreated"

unfoldable pub is_synced_type : RawCondition → Bool
unfolding is_text
is_synced_type malformed = false
is_synced_type (fields m) = is_text m "type" condition_type_lineage_synced

unfoldable pub is_synced_true : RawCondition → Bool
unfolding is_text
is_synced_true malformed = false
is_synced_true (fields m) =
    is_text m "type" condition_type_lineage_synced && is_text m "status" "True"

-- The new condition; `stamp` is the present in RFC 3339.
unfoldable pub synced_condition : String → String → ℕ → RawCondition
unfolding quote
synced_condition stamp ili_name generation = fields (
    ("type", text condition_type_lineage_synced)
    ∷ ("status", text "True")
    ∷ ("reason", text reason_lineage_index_created)
    ∷ (
      "message",
      text (
          "InfrastructureLineageIndex "
          ⊕ quote ili_name
          ⊕ " created by InfrastructureLineageController."),
    )
    ∷ ("lastTransitionTime", text stamp)
    ∷ ("observedGeneration", number generation)
    ∷ [])

-- The loop: every LineageSynced condition is replaced.
unfoldable pub replace_synced : RawCondition → List RawCondition → List RawCondition
unfolding is_synced_type
replace_synced new [] = []
replace_synced new (c ∷ cs) = (if is_synced_type c then new else c) ∷ replace_synced new cs

-- The updated conditions, with the new one at the end if it replaced none. (SetNestedSlice fails for
-- a status that is not a map; such objects are left out.)
unfoldable pub synced_conditions : RawCondition → List RawCondition → List RawCondition
unfolding replace_synced
synced_conditions new cs =
    if any is_synced_type cs then replace_synced new cs else replace_synced new cs ++ new ∷ []

module _ {S : Type 0} (r : LineageClient S) (rfc3339 : ℕ → String) where
  unfoldable pub write_synced : String → Unstructured → Api S (Unit {0})
  unfolding is_synced_true synced_conditions synced_condition
  write_synced ili_name fresh =
      if any is_synced_true fresh.conditions
      then pure tt
      else r.status fresh (record fresh {
        conditions =
            synced_conditions (synced_condition (rfc3339 r.now) ili_name fresh.generation)
              fresh.conditions;
      })

  unfoldable pub ensure_lineage_synced_true : Unstructured → String → Api S (Unit {0})
  unfolding write_synced
  ensure_lineage_synced_true root ili_name =
      within "re-fetch root for LineageSynced patch" (r.objects.fetch (root.gvk, key_of root))
      >>= write_synced ili_name
