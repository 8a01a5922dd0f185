-- ===== src/Prelude/Sort.antt =====
-- sort.Strings, and what it keeps.
use Prim.Native.Nat.{Ordering}
use Prim.Native.String.{String, compare}
use mathlib.Core.Path.{◌≡◌, refl}
use mathlib.Core.Bool.{Bool, true, false, not, ◌&&◌, ◌||◌}
use mathlib.Core.List.{List, [], ◌∷◌, ◌++◌}
use text.Mathlib.TextEquality.{eq_iff}
use native.Mathlib.Omega.{arith}
use text.Mathlib.Text.{◌==◌}
use seam_core.Prelude.Tests.{if◌then◌else◌}
use seam_core.Prelude.Lists.{any}

-- The order of texts by code points, which is that of their UTF-8 bytes.
abbrev pub is_before : Ordering → Bool
is_before Ordering.gt = false
is_before _ = true

unfoldable pub insert_sorted : String → List String → List String
insert_sorted k [] = k ∷ []
insert_sorted k (j ∷ js) =
    let rest = insert_sorted k js in if is_before (compare k j) then k ∷ j ∷ js else j ∷ rest

unfoldable pub sort_strings : List String → List String
unfolding insert_sorted
sort_strings [] = []
sort_strings (k ∷ ks) = insert_sorted k (sort_strings ks)

-- The key is in the list.
abbrev pub mem : String → List String → Bool
mem k ks = any (λ j. j == k) ks

mem-insert_sorted :
    (k j : String) (ks : List String) → mem k (insert_sorted j ks) ≡ (j == k || mem k ks)
unfolding insert_sorted
mem-insert_sorted k j [] = refl
mem-insert_sorted k j (i ∷ ks) = ground (arith, mem-insert_sorted k j ks)

pub mem-sort_strings : (k : String) (ks : List String) → mem k (sort_strings ks) ≡ mem k ks
unfolding sort_strings
mem-sort_strings k [] = refl
mem-sort_strings k (j ∷ ks) =
    ground (arith, mem-insert_sorted k j (sort_strings ks), mem-sort_strings k ks)

-- The texts are pairwise different.
abbrev pub unique : List String → Bool
unique [] = true
unique (k ∷ ks) = not (mem k ks) && unique ks

pub mem-append_one : (k j : String) (ks : List String) → mem k (ks ++ j ∷ []) ≡ (mem k ks || j == k)
mem-append_one k j [] = ground arith
mem-append_one k j (i ∷ ks) = ground (arith, mem-append_one k j ks)

pub unique-append_one :
    (j : String) (ks : List String)
    → unique ks ≡ true
    → mem j ks ≡ false
    → unique (ks ++ j ∷ []) ≡ true
unique-append_one j [] h e = refl
unique-append_one j (k ∷ ks) h e =
    ground (arith, eq_iff k j, eq_iff j k, unique-append_one j ks, mem-append_one k j ks)
