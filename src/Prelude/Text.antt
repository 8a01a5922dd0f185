-- ===== src/Prelude/Text.antt =====
-- What the program uses of Go's `strings` and `fmt` packages, over the native texts.
use Prim.Native.Nat.{ℕ, zero, suc, ◌+◌, ◌-◌, ◌/◌, ◌%◌, ◌<◌}
use Prim.Native.Char.{Char, code}
use Prim.Native.String.{String, char_at, [], ◌∷◌, ◌++◌}
use Prim.Native.String.append
use mathlib.Core.Path.{◌≡◌, refl, ap, ◌∙◌}
use mathlib.Core.Logic.{◌≢◌}
use mathlib.Core.Bool.{Bool, true, false, ◌&&◌, ◌||◌}
use mathlib.Core.Option
use mathlib.Core.Option.{Option, none, some}
use native.Mathlib.Omega.{arith}
use seam_core.Prelude.Tests.{leb, ltb, nat_eq, if◌then◌else◌}

-- `s + t` of two texts; `++` is for lists.
infixr 66 ◌⊕◌
abbrev pub ◌⊕◌ : String → String → String
s ⊕ t = s ++ t

-- strings.ToLower on ASCII; other characters stay.
lower_char : Char → Char
lower_char c =
    if leb 65 (code c) && leb (code c) 90
    then char_at "abcdefghijklmnopqrstuvwxyz" (code c - 65)
    else c

unfoldable pub to_lower : String → String
unfolding lower_char
to_lower [] = []
to_lower (c ∷ s) = lower_char c ∷ to_lower s

-- The texts before and behind the first `d`: `i := strings.Index(s, d)`, `s[:i]` and `s[i+1:]`.
unfoldable pub split_at : Char → String → Option (String × String)
split_at d [] = none
split_at d (c ∷ s) =
    let rest = split_at d s in
    if nat_eq (code c) (code d) then some ([], s) else Option.map (λ p. (c ∷ p.0, p.1)) rest

-- strings.IndexByte(s, d) >= 0
unfoldable pub has_char : Char → String → Bool
has_char d [] = false
has_char d (c ∷ s) = nat_eq (code c) (code d) || has_char d s

-- The first `n` characters, s[:n] for an ASCII text.
unfoldable pub take_chars : ℕ → String → String
take_chars zero s = []
take_chars (suc n) [] = []
take_chars (suc n) (c ∷ s) = c ∷ take_chars n s

-- What follows the prefix, if there is one.
unfoldable pub strip_prefix : String → String → Option String
strip_prefix [] s = some s
strip_prefix (p ∷ ps) [] = none
strip_prefix (p ∷ ps) (c ∷ s) =
    let rest = strip_prefix ps s in if nat_eq (code p) (code c) then rest else none

-- strings.HasPrefix(s, p)
unfoldable pub has_prefix : String → String → Bool
unfolding strip_prefix
has_prefix s p = elim (strip_prefix p s) [ none ↦ false | some r ↦ true ]

-- strings.TrimPrefix(s, p)
unfoldable pub trim_prefix : String → String → String
unfolding strip_prefix
trim_prefix s p = elim (strip_prefix p s) [ none ↦ s | some r ↦ r ]

-- strings.Contains(s, t)
unfoldable pub contains : String → String → Bool
unfolding has_prefix
contains [] t = has_prefix [] t
contains (c ∷ s) t = has_prefix (c ∷ s) t || contains s t

-- `%d` of a number: its decimal digits. The first argument bounds their count.
digits : ℕ → ℕ → String → String
digits zero n out = out
digits (suc f) n out =
    let out' = char_at "0123456789" (n % 10) ∷ out in
    let rest = digits f (n / 10) out' in if ltb n 10 then out' else rest

unfoldable pub decimal : ℕ → String
unfolding digits
decimal n = digits (suc n) n ""

-- `%q` of a text: quotes and backslashes are escaped, and so are the line feed, the carriage
-- return and the tab. Other characters that cannot be printed are left as they are.
escape : Char → String → String
escape c s =
    if nat_eq (code c) 34
    then "\\\"" ⊕ s
    else if nat_eq (code c) 92
    then "\\\\" ⊕ s
    else if nat_eq (code c) 10
    then "\\n" ⊕ s
    else if nat_eq (code c) 13
    then "\\r" ⊕ s
    else if nat_eq (code c) 9
    then "\\t" ⊕ s
    else c ∷ s

escapes : String → String
escapes [] = []
escapes (c ∷ s) = escape c (escapes s)

unfoldable pub quote : String → String
unfolding escape escapes
quote s = "\"" ⊕ escapes s ⊕ "\""

-- No character of the text is `d`.
abbrev pub Lacks : Char → String → Type 0
Lacks d [] = Unit
Lacks d (c ∷ s) = (code c ≢ code d) × Lacks d s

pub split_at-append : (d : Char) (a b : String) → Lacks d a → split_at d (a ⊕ d ∷ b) ≡ some (a, b)
unfolding split_at
split_at-append d [] b h = rw append.nil (ground arith)
split_at-append d (c ∷ a) b h = rw append.cons (ground (arith, split_at-append d a b h.1))

colon-append : (t : String) → ":" ⊕ t ≡ ":" ∷ t
colon-append t = append.cons ":" [] t ∙ ap (λ r. ":" ∷ r) (append.nil t)

pub split_at-colon : (a b : String) → Lacks ":" a → split_at ":" (a ⊕ ":" ⊕ b) ≡ some (a, b)
split_at-colon a b h = rw (colon-append b) (split_at-append ":" a b h)

dash-append : (t : String) → "-" ⊕ t ≡ "-" ∷ t
dash-append t = append.cons "-" [] t ∙ ap (λ r. "-" ∷ r) (append.nil t)

pub split_at-dash : (a b : String) → Lacks "-" a → split_at "-" (a ⊕ "-" ⊕ b) ≡ some (a, b)
split_at-dash a b h = rw (dash-append b) (split_at-append "-" a b h)

pub Lacks-has_char : (d : Char) (s : String) → has_char d s ≡ false → Lacks d s
unfolding has_char
Lacks-has_char d [] h = tt
Lacks-has_char d (c ∷ s) h = (ground arith, Lacks-has_char d s (ground arith))

pub has_char-append :
    (d : Char) (s t : String) → has_char d (s ⊕ t) ≡ (has_char d s || has_char d t)
unfolding has_char
has_char-append d [] t = rw append.nil
has_char-append d (c ∷ s) t = rw append.cons (ground (arith, has_char-append d s t))

pub split_at-none : (d : Char) (s : String) → has_char d s ≡ false → split_at d s ≡ none
unfolding split_at has_char
split_at-none d [] h = refl
split_at-none d (c ∷ s) h = ground (arith, split_at-none d s)

-- `p` holds of the numbers below `n`.
all_below : ℕ → (ℕ → Bool) → Bool
all_below zero p = true
all_below (suc n) p = p n && all_below n p

all_below_sound : (n : ℕ) (p : ℕ → Bool) (i : ℕ) → all_below n p ≡ true → i < n → p i ≡ true
unfolding all_below
all_below_sound zero p i h lt = absurd (omega arith)
all_below_sound (suc n) p i h lt = ground (arith, all_below_sound n p i)

alphabet_table :
    all_below 26 (λ i. nat_eq (code (char_at "abcdefghijklmnopqrstuvwxyz" i)) (i + 97)) ≡ true
unfolding all_below
alphabet_table = refl

code-alphabet : (i : ℕ) → i < 26 → code (char_at "abcdefghijklmnopqrstuvwxyz" i) ≡ i + 97
code-alphabet i h = ground (arith, all_below_sound 26 _ i alphabet_table h)

lower_char_idem : (c : Char) → lower_char (lower_char c) ≡ lower_char c
unfolding lower_char
lower_char_idem c = ground (arith, code-alphabet (code c - 65))

pub to_lower_idem : (s : String) → to_lower (to_lower s) ≡ to_lower s
unfolding to_lower
to_lower_idem [] = refl
to_lower_idem (c ∷ s) = cc (lower_char_idem c, to_lower_idem s)

pub strip_prefix-append : (p s : String) → strip_prefix p (p ⊕ s) ≡ some s
unfolding strip_prefix
strip_prefix-append [] s = rw append.nil refl
strip_prefix-append (c ∷ p) s = rw append.cons (ground (arith, strip_prefix-append p s))

test_text :
    (to_lower "Infra-Z9" ≡ "infra-z9")
    × (decimal 86400 ≡ "86400")
    × (decimal 0 ≡ "0")
    × (contains "PackDriftDetected" "Drift" ≡ true)
    × (trim_prefix "seam-tenant-a" "seam-tenant-" ≡ "a")
    × (split_at ":" "A:x:y" ≡ some ("A", "x:y"))
    × (quote "a\"b" ≡ "\"a\\\"b\"")
unfolding to_lower decimal contains trim_prefix split_at quote
test_text = (refl, refl, refl, refl, refl, refl, refl)
