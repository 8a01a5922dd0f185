-- ===== src/Lineage/Racing.antt =====
-- A concrete interleaving for the theorem about two reconciles of one index.
use seam_core.Prelude.{String, ◌≡◌, refl, ◌≢◌, true, false, [], ◌∷◌, some, arith, eq_iff, mem}
use seam_core.Kube.Object.{Unstructured, string_at}
use seam_core.Kube.Client.{ok}
use seam_core.Kube.Memory.{same_key_iff}
use seam_core.Lineage.Index.{LineageIndex, key_of_index}
use seam_core.Lineage.Control.{build_ili}
use seam_core.Lineage.Registry.{descendant_uids, descendant_entry, append_descendant}
use seam_core.Lineage.Append.Lost.{IsMergePatch, append_descendant-lost}
use seam_core.Lineage.Samples.{pack, pack_index, Store, view, client, index_client}

abbrev other : Unstructured
other = record pack { name = "redis"; uid = "u3" }

abbrev start : Store
start = pack_index ∷ []

abbrev once : Store
once = (append_descendant client pack pack_index start).1

abbrev twice : Store
twice = (append_descendant client other pack_index once).1

stored_last : (v : LineageIndex) (s : Store) → view (v ∷ s) (key_of_index v) ≡ some v
stored_last v s = rw ((same_key_iff (key_of_index v) (key_of_index v)).1 refl) refl

memory_merges : IsMergePatch view index_client
memory_merges old v stored s h d = rw h (v, stored_last v s, refl)

first_runs : append_descendant client pack pack_index start ≡ (ok false, once)
unfolding append_descendant descendant_entry string_at build_ili
first_runs = refl

second_runs : append_descendant client other pack_index once ≡ (ok false, twice)
unfolding append_descendant descendant_entry string_at build_ili
second_runs = refl

different : ◌≢◌ {A = String} "u2" "u3"
different e = ground (arith, eq_iff "u2" "u3")

start_there : view start (key_of_index pack_index) ≡ some pack_index
unfolding build_ili
start_there = refl

append_descendant-lost_example :
    (last : LineageIndex) × (view twice (key_of_index pack_index) ≡ some last)
    × (mem "u2" (descendant_uids last.spec.descendant_registry) ≡ false)
    × (mem "u3" (descendant_uids last.spec.descendant_registry) ≡ true)
append_descendant-lost_example =
    append_descendant-lost view client client pack other pack_index start once twice memory_merges
      memory_merges different refl refl start_there first_runs second_runs
