-- ===== src/Lineage/Tests.antt =====
-- Concrete inputs for the theorems about lineage.
use seam_core.Prelude.{
  All, String, ◌≡◌, refl, ◌↔◌, true, false, not, List, [], ◌∷◌, none, some, arith, ◌==◌, any,
  select, ◌+◌, ◌*◌, ◌≤◌, to_lower,
}
use seam_core.Lineage.Index.{key_of_index}
use seam_core.Lineage.Labels.{label_root_ili, index_name}
use seam_core.Lineage.Registry.{LineageClient, index_key_of, reconcile_descendant}
use seam_core.Lineage.Outcome.{classify_condition, classify_terminal_outcome, reconcile_outcome}
use seam_core.Lineage.Outcome.Verdict.{Classifies, classify_terminal_outcome-Classifies}
use seam_core.Lineage.Retention.{second, hour, is_expired, prune_stale_descendants}
use seam_core.Lineage.Retention.Window.{days, is_expired_iff, is_expired-wrapped}
use seam_core.Lineage.Retention.Pruned.{reply, stays, Pruned, prune_stale_descendants-Pruned}
use seam_core.Lineage.Synced.{is_synced_type, is_synced_true, synced_condition, synced_conditions}
use seam_core.Lineage.Synced.Update.{synced_conditions_lem}
use seam_core.Lineage.Control.{
  lineage_index_name, is_annotated, index_key, build_ili, reconcile_root, get_or_create,
  create_index, refetch, settle, write_governance_annotation,
  ensure_owner_reference_if_delete_with_root,
}
use seam_core.Lineage.Retention.{prune_stale_descendants}
use seam_core.Lineage.Synced.{ensure_lineage_synced_true}
use seam_core.Lineage.Control.Guard.{reconcile_root-annotated}
use seam_core.Lineage.Append.{
  Same, Appends, is_descendant, add_descendant, reconcile_descendant-Appends,
}
use seam_core.Lineage.Append.Outcomes.{is_settled, add_outcome, reconcile_outcome-Appends}
use seam_core.Lineage.Append.Unique.{Distinct, descendants, outcomes}
use seam_core.Lineage.Names.{index_name-injective}
use seam_core.Kube.Object.{string_at, text_at, Unstructured}
use seam_core.Kube.Client.{ok}
use seam_core.Lineage.Registry.{register_descendant}
use seam_core.Lineage.Outcome.{register_outcome, classify_conditions}
use seam_core.Lineage.Append.Registered.{
  Registered, register_descendant-Registered, register_outcome-Registered,
}
use seam_core.Lineage.Samples.{
  pack_gvk, pack, pack_entry, pack_index, Store, view, one_object, client, store, quiet, req,
}
use seam_core.Lineage.System.{
  Run, lineage_run, descendant_run, outcome_run, run_all, IsFair, Lasts, run_all-Lasts,
}
use seam_core.Lineage.System.Distinct.{run_all-Distinct}
use seam_core.Lineage.Control.Settle.{IsQuiet}
use seam_core.Lineage.Control.Present.{Settled}
use seam_core.Lineage.Control.Present.{Done}
use seam_core.Lineage.Control.Owned.{Owned, reconcile_root-Owned}
use seam_core.Lineage.Control.Whole.{expected, reconcile_root-Settled}

reconcile_descendant-Appends_example :
    Appends view client store quiet
      (is_descendant view client store quiet)
      (add_descendant view client store quiet)
      (pack_index ∷ [])
      (reconcile_descendant client req (pack_index ∷ []))
reconcile_descendant-Appends_example =
    reconcile_descendant-Appends view client store quiet req (pack_index ∷ [])

reconcile_outcome-Appends_example :
    Appends view client store quiet
      (is_settled view client store quiet)
      (add_outcome view client store quiet)
      (pack_index ∷ [])
      (reconcile_outcome client req (pack_index ∷ []))
reconcile_outcome-Appends_example =
    reconcile_outcome-Appends view client store quiet req (pack_index ∷ [])

classify_terminal_outcome-Classifies_example :
    Classifies pack.conditions (classify_terminal_outcome pack)
classify_terminal_outcome-Classifies_example = classify_terminal_outcome-Classifies pack

-- Thirty days after second 1000, and a second less.
is_expired_iff_example :
    (is_expired 2593000000000000 (days 30) pack_entry ≡ true)
    ↔ (1000 * second + 30 * 24 * hour ≤ 2593000000000000)
is_expired_iff_example =
    is_expired_iff 2593000000000000 1000 30 pack_entry (omega arith) (omega arith) refl
      (omega arith) (omega arith)

is_expired-wrapped_example : is_expired 1000000000001 (days 106752) pack_entry ≡ true
is_expired-wrapped_example =
    is_expired-wrapped 1000000000001 1000 106752 pack_entry (omega arith) (omega arith) refl
      (omega arith)

abbrev no_object : LineageClient Store
no_object = record client { objects = record one_object { fetch = λ k s. reply none s } }

pack_index_there : view (pack_index ∷ []) (key_of_index pack_index) ≡ some pack_index
unfolding build_ili
pack_index_there = refl

prune_stale_descendants-Pruned_example :
    Pruned view
      (stays no_object (λ s k. none) pack_index.spec.retention_policy (pack_index ∷ []))
      pack_index
      (pack_index ∷ [])
      (prune_stale_descendants no_object pack_index (pack_index ∷ []))
prune_stale_descendants-Pruned_example =
    prune_stale_descendants-Pruned view no_object (λ s k. none) (λ k s. refl) store pack_index
      (pack_index ∷ []) pack_index_there

synced_conditions_lem_example :
    let after = synced_conditions (synced_condition "2026-01-01T00:00:00Z" "x" 1) pack.conditions in
    (any is_synced_true after ≡ true)
    × (select (λ c. not (is_synced_type c)) after
        ≡ select (λ c. not (is_synced_type c)) pack.conditions)
synced_conditions_lem_example = synced_conditions_lem "2026-01-01T00:00:00Z" "x" 1 pack.conditions

pack_annotated : is_annotated pack (lineage_index_name pack_gvk.kind "nginx") ≡ true
unfolding is_annotated lineage_index_name to_lower
pack_annotated = refl

pack_index_found :
    view (pack_index ∷ []) (index_key pack (lineage_index_name pack_gvk.kind "nginx"))
    ≡ some pack_index
unfolding build_ili lineage_index_name to_lower
pack_index_found = refl

reconcile_root-annotated_example :
    Same view (pack_index ∷ []) (reconcile_root client (λ n. "now") pack (pack_index ∷ [])).1
reconcile_root-annotated_example =
    reconcile_root-annotated view client (λ n. "now") store quiet (λ old new s j. refl) pack
      (pack_index ∷ []) pack_index pack_annotated pack_index_found

same_name : index_name "RBACPolicy" "a-b" ≡ lineage_index_name "RBACPolicy" "a-b"
unfolding index_name lineage_index_name
same_name = refl

index_name-injective_example :
    (◌≡◌ {A = String} "RBACPolicy" "RBACPolicy") × (◌≡◌ {A = String} "a-b" "a-b")
index_name-injective_example =
    index_name-injective "RBACPolicy" "RBACPolicy" "a-b" "a-b" refl refl same_name

quiet_client : IsQuiet view client
quiet_client = record {
  fetches = quiet;
  patches = λ old new s j. refl;
  statuses = λ old new s j. refl;
}

-- The index of an annotated root declaration was deleted, and is created again.
reconcile_root-Settled_example :
    Settled view
      (index_key pack (lineage_index_name pack_gvk.kind "nginx"))
      (expected view client
        (λ n. "now")
        store
        quiet_client
        pack
        (lineage_index_name pack_gvk.kind "nginx")
        (view [] (index_key pack (lineage_index_name pack_gvk.kind "nginx"))))
      []
      (reconcile_root client (λ n. "now") pack [])
reconcile_root-Settled_example =
    reconcile_root-Settled view client (λ n. "now") store quiet_client pack []

pack_labelled : (string_at pack.labels label_root_ili == "") ≡ false
unfolding string_at
pack_labelled = refl

pack_terminal : ((classify_terminal_outcome pack).outcome_type == "") ≡ false
unfolding classify_terminal_outcome classify_conditions classify_condition text_at
pack_terminal = refl

register_descendant-Registered_example :
    Registered view true
      (descendants view)
      (index_key_of pack)
      "u2"
      (register_descendant client pack (pack_index ∷ []))
register_descendant-Registered_example =
    register_descendant-Registered view client store pack (pack_index ∷ []) pack_labelled

register_outcome-Registered_example :
    Registered view false
      (outcomes view)
      (index_key_of pack)
      "u2"
      (register_outcome client pack (pack_index ∷ []))
register_outcome-Registered_example =
    register_outcome-Registered view client store pack (pack_index ∷ []) pack_labelled pack_terminal

-- A run of each reconciler for one object.
abbrev three_runs : List (Run Store)
three_runs = lineage_run client req ∷ descendant_run client req ∷ outcome_run client req ∷ []

three_runs-IsFair : All (IsFair view) three_runs
three_runs-IsFair = (
  record { store = store; quiet = quiet_client },
  (
    record { store = store; quiet = quiet_client },
    (record { store = store; quiet = quiet_client }, tt),
  ),
)

run_all-Lasts_example :
    Lasts view (pack_index ∷ []) (run_all (λ n. "now") three_runs (pack_index ∷ []))
run_all-Lasts_example =
    run_all-Lasts view (λ n. "now") three_runs (pack_index ∷ []) three_runs-IsFair

run_all-Distinct_example : Distinct view (run_all (λ n. "now") three_runs [])
run_all-Distinct_example =
    run_all-Distinct view (λ n. "now") three_runs [] three_runs-IsFair
      ((λ k ili e. cc), λ k ili e. cc)

-- A root declaration without an annotation, for which the index is created.
abbrev bare_pack : Unstructured
bare_pack = record pack { annotations = [] }

bare_pack_annotated : is_annotated bare_pack (lineage_index_name pack_gvk.kind "nginx") ≡ false
unfolding is_annotated
bare_pack_annotated = refl

bare_pack_settles : (reconcile_root client (λ n. "now") bare_pack []).0 ≡ ok false
unfolding reconcile_root get_or_create create_index refetch settle is_annotated to_lower
    prune_stale_descendants write_governance_annotation ensure_lineage_synced_true
    ensure_owner_reference_if_delete_with_root
bare_pack_settles = refl

reconcile_root-Owned_example :
    Done view
      (Owned view bare_pack (index_key bare_pack (lineage_index_name pack_gvk.kind "nginx")))
      (reconcile_root client (λ n. "now") bare_pack [])
reconcile_root-Owned_example =
    reconcile_root-Owned view client (λ n. "now") store quiet_client bare_pack []
      bare_pack_annotated
