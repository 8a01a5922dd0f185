-- ===== src/Lineage/Retention.antt =====
-- Retention of descendants in internal/controller/lineage_controller.go.
pub mod Pruned
pub mod Window
use seam_core.Prelude.{
  ℕ, String, ◌*◌, Bool, true, false, not, List, [], ◌∷◌, Option, none, some, if◌then◌else◌, ltb,
}
use seam_core.Prelude.Int.{ℤ, pos, negsuc, pos_part, sub_ℕ, ltb_ℤ, int64}
use seam_core.Kube.Object.{ObjectKey, GroupVersionKind}
use seam_core.Kube.Client.{
  Error, Result, ok, err, is_not_found, Api, pure, raise, try_or, ◌>>=◌, ◌>>◌, ObjectClient,
}
use seam_core.Lineage.Index.{
  DescendantEntry, LineageRetentionPolicy, LineageIndex, with_descendants,
}
use seam_core.Lineage.Registry.{LineageClient, KindKey}

abbrev pub default_descendant_retention_days : ℕ
default_descendant_retention_days = 30

-- Nanoseconds.
abbrev pub second : ℕ
second = 1000000000

abbrev pub hour : ℕ
hour = 3600000000000

-- An int32 of a valid index; days that are not positive stand for the default.
unfoldable pub retention_days : Option LineageRetentionPolicy → ℕ
retention_days none = default_descendant_retention_days
retention_days (some p) =
    if ltb_ℤ (pos 0) p.descendant_retention_days
    then pos_part p.descendant_retention_days
    else default_descendant_retention_days

-- time.Duration(retentionDays) * 24 * time.Hour, which wraps around.
unfoldable pub retention_window : Option LineageRetentionPolicy → ℤ
unfolding retention_days
retention_window p = int64 (retention_days p * 24 * hour)

-- time.Since: the difference, or the least or the greatest int64 where it is not one.
unfoldable pub since : ℕ → ℕ → ℤ
since now t =
    let d = sub_ℕ now t in
    if ltb_ℤ (pos 9223372036854775807) d
    then pos 9223372036854775807
    else if ltb_ℤ d (negsuc 9223372036854775807)
    then negsuc 9223372036854775807
    else d

abbrev pub object_of : DescendantEntry → KindKey
object_of e = (
  record { group = e.group; version = e.version; kind = e.kind },
  record { namespace = e.namespace; name = e.name },
)

-- The entry has a time of creation, and the window after it is over.
unfoldable pub is_expired : ℕ → Option LineageRetentionPolicy → DescendantEntry → Bool
unfolding retention_window since
is_expired now p e = elim e.created_at [
  | none ↦ false
  | some t ↦ not (ltb_ℤ (since now (t * second)) (retention_window p))
]

module _ {S : Type 0} (r : LineageClient S) where
  -- One pass of the loop: whether the entry stays.
  unfoldable pub keeps_entry : Option LineageRetentionPolicy → DescendantEntry → Api S Bool
  unfolding is_expired
  keeps_entry p e =
      if is_expired r.now p e
      then try_or (r.objects.fetch (object_of e)) (λ _. pure true)
          (λ error. pure (not (is_not_found error)))
      else pure true

  abbrev pub add_kept :
      DescendantEntry → Bool → List DescendantEntry × Bool → List DescendantEntry × Bool
  add_kept e true (kept, pruned) = (e ∷ kept, pruned)
  add_kept e false (kept, pruned) = (kept, true)

  -- The loop: the entries that stay, and whether any entry was pruned.
  unfoldable pub prune_entries :
      Option LineageRetentionPolicy → List DescendantEntry → Api S (List DescendantEntry × Bool)
  unfolding keeps_entry
  prune_entries p [] = pure ([], false)
  prune_entries p (e ∷ es) =
      keeps_entry p e >>= (λ keep. prune_entries p es >>= (λ rest. pure (add_kept e keep rest)))

  abbrev pub write_pruned : LineageIndex → List DescendantEntry × Bool → Api S LineageIndex
  write_pruned ili (kept, false) = pure ili
  write_pruned ili (kept, true) =
      r.indexes.patch ili (with_descendants ili kept) >> pure (with_descendants ili kept)

  -- The result is what the pointer to the index holds afterwards.
  unfoldable pub prune_stale_descendants : LineageIndex → Api S LineageIndex
  unfolding prune_entries
  prune_stale_descendants ili = elim ili.spec.descendant_registry [
    | [] ↦ pure ili
    | e ∷ es ↦ prune_entries ili.spec.retention_policy (e ∷ es) >>= write_pruned ili
  ]
