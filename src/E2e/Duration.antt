-- ===== src/E2e/Duration.antt =====
-- `%s` of a time.Duration (Duration.String of Go's library), for a span that is not negative.
use Prim.Native.String.{char_at, ◌∷◌}
use seam_core.Prelude.{
  ℕ, zero, suc, ◌+◌, ◌*◌, ◌/◌, ◌%◌, String, ◌≡◌, refl, Bool, false, ◌||◌, not, nat_eq, ltb,
  if◌then◌else◌, decimal, ◌⊕◌,
}

abbrev pub second : ℕ
second = 1_000_000_000

abbrev pub minute : ℕ
minute = 60_000_000_000

-- fmtFrac: `n` digits of `v` after a point, without the zeros at the end. The number that is left
-- stands before the text.
fraction : ℕ → Bool → ℕ → String → ℕ × String
fraction zero print v out = (v, if print then "." ⊕ out else out)
fraction (suc n) print v out =
    let digit = v % 10 in
    let print' = print || not (nat_eq digit 0) in
    fraction n print' (v / 10) (if print' then char_at "0123456789" digit ∷ out else out)

abbrev with_fraction : ℕ × String → String
with_fraction (v, out) = decimal v ⊕ out

hours : ℕ → String → String
unfolding decimal
hours u out = if ltb 0 u then decimal u ⊕ "h" ⊕ out else out

minutes : ℕ → String → String
unfolding hours decimal
minutes u out = if ltb 0 u then hours (u / 60) (decimal (u % 60) ⊕ "m" ⊕ out) else out

seconds : ℕ × String → String
unfolding minutes decimal
seconds (u, out) = minutes (u / 60) (decimal (u % 60) ⊕ out)

unfoldable pub duration_text : ℕ → String
unfolding fraction seconds decimal
duration_text d =
    if ltb d second
    then (if nat_eq d 0
        then "0s"
        else if ltb d 1_000
        then decimal d ⊕ "ns"
        else if ltb d 1_000_000
        then with_fraction (fraction 3 false d "µs")
        else with_fraction (fraction 6 false d "ms"))
    else seconds (fraction 9 false d "s")

test_duration :
    (duration_text (5 * minute) ≡ "5m0s")
    × (duration_text 1_500_000_000 ≡ "1.5s")
    × (duration_text (61 * minute + 30 * second) ≡ "1h1m30s")
    × (duration_text 1_200_000 ≡ "1.2ms")
    × (duration_text 0 ≡ "0s")
unfolding duration_text fraction seconds minutes hours decimal
test_duration = (refl, refl, refl, refl, refl)
