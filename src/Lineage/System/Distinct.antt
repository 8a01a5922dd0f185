-- ===== src/Lineage/System/Distinct.antt =====
-- The UIDs in the registries over runs of the three reconcilers of lineage in internal/controller.
use seam_core.Prelude.{ℕ, String, List, [], ◌∷◌, Option, All}
use seam_core.Kube.Object.{ObjectKey}
use seam_core.Lineage.Index.{LineageIndex}
use seam_core.Lineage.Append.Unique.{
  Distinct, reconcile_descendant-IsUnique, reconcile_descendant-outcomes,
  reconcile_outcome-IsUnique, reconcile_outcome-descendants,
}
use seam_core.Lineage.Control.Bindings.{Bound}
use seam_core.Lineage.Control.Whole.{reconcile_lineage-Bound}
use seam_core.Lineage.System.{Run, lineage_run, descendant_run, outcome_run, run, run_all, IsFair}

module _ {S : Type 0} (view : S → ObjectKey → Option LineageIndex) (rfc3339 : ℕ → String) where
  run-Distinct :
      (x : Run S) (s : S) → IsFair view x → Distinct view s → Distinct view (run rfc3339 x s)
  run-Distinct (lineage_run r req) s f d =
      Bound.distinct (reconcile_lineage-Bound view r rfc3339 f.store f.quiet req s) d
  run-Distinct (descendant_run r req) s f d = (
    reconcile_descendant-IsUnique view r f.store f.quiet.fetches req s d.0,
    reconcile_descendant-outcomes view r f.store f.quiet.fetches req s d.1,
  )
  run-Distinct (outcome_run r req) s f d = (
    reconcile_outcome-descendants view r f.store f.quiet.fetches req s d.0,
    reconcile_outcome-IsUnique view r f.store f.quiet.fetches req s d.1,
  )

  -- Over any sequence of runs of the three reconcilers, one after the other, on a store of indexes
  -- that nobody else writes and that the calls for other objects leave as it is, the UIDs of the
  -- descendants and those of the outcomes stay pairwise different in every index, the ones created
  -- on the way included, whatever the results of the runs.
  pub run_all-Distinct :
      (xs : List (Run S)) (s : S)
      → All (IsFair view) xs
      → Distinct view s
      → Distinct view (run_all rfc3339 xs s)
  unfolding run_all
  run_all-Distinct [] s f d = d
  run_all-Distinct (x ∷ xs) s f d =
      run_all-Distinct xs (run rfc3339 x s) f.1 (run-Distinct x s f.0 d)
