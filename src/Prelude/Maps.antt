-- ===== src/Prelude/Maps.antt =====
-- A Go map with string keys, as an association list that holds each key once.
use Prim.Native.String.{String}
use mathlib.Core.Path.{◌≡◌, refl}
use mathlib.Core.Bool.{Bool, true, false}
use mathlib.Core.Option.{Option, none, some}
use mathlib.Core.List.{List, [], ◌∷◌, map}
use native.Mathlib.Omega.{arith}
use text.Mathlib.Text.{◌==◌}
use text.Mathlib.TextEquality.{eq_iff}
use text.Mathlib.TextPositions.{eq_refl}
use seam_core.Prelude.Tests.{if◌then◌else◌}
use seam_core.Prelude.Sort.{mem}

abbrev pub is_some {ℓ} : {A : Type ℓ} → Option A → Bool
is_some none = false
is_some (some a) = true

abbrev pub Dict {ℓ} : Type ℓ → Type ℓ
Dict V = List (String × V)

module _ {ℓ} {V : Type ℓ} where
  -- v, ok := m[k]
  unfoldable pub get : Dict V → String → Option V
  get [] k = none
  get ((j, v) ∷ m) k = let rest = get m k in if j == k then some v else rest

  -- delete(m, k)
  unfoldable pub remove : Dict V → String → Dict V
  remove [] k = []
  remove ((j, v) ∷ m) k = let rest = remove m k in if j == k then rest else (j, v) ∷ rest

  -- m[k] = v
  unfoldable pub put : Dict V → String → V → Dict V
  unfolding remove
  put m k v = (k, v) ∷ remove m k

  -- The keys over which `range` goes, in some order.
  unfoldable pub keys : Dict V → List String
  keys m = map (λ e. e.0) m

  pub get-remove :
      (m : Dict V) (k j : String) → get (remove m k) j ≡ (if k == j then none else get m j)
  unfolding get remove
  get-remove [] k j = ground arith
  get-remove ((i, v) ∷ m) k j = ground (arith, get-remove m k j, eq_iff i k, eq_iff i j, eq_iff k j)

  pub get-put :
      (m : Dict V) (k : String) (v : V) (j : String)
      → get (put m k v) j ≡ (if k == j then some v else get m j)
  unfolding get put
  get-put m k v j = ground (arith, get-remove m k j)

  pub get-put_self : (m : Dict V) (k : String) (v : V) → get (put m k v) k ≡ some v
  unfolding get put
  get-put_self m k v = ground (arith, eq_refl k)

  pub mem-keys : (m : Dict V) (k : String) → mem k (keys m) ≡ is_some (get m k)
  unfolding get keys
  mem-keys [] k = refl
  mem-keys ((j, v) ∷ m) k = ground (arith, mem-keys m k)

pub ruleset dict_laws = (get-remove, get-put, eq_refl)
