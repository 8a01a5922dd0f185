-- ===== src/Conditions/Transition.antt =====
-- What `SetCondition` of pkg/conditions/conditions.go does to a list of conditions.
use mathlib.Core.Option.{none-ne-some}
use seam_core.Prelude.{
  ℕ, String, ◌≡◌, refl, sym, ap, ◌∙◌, ◌≢◌, Bool, true, false, List, [], ◌∷◌, ◌++◌, map, Option,
  none, some, arith, ◌==◌, eq_iff, eq_refl, eq_of_ne, Bool-cases, Option-cases, mem, unique,
  unique-append_one, is_some, inl, inr,
}
use seam_core.Conditions.Update.{
  Condition, Setting, find_condition, fresh, overwrite, overwrite_first, set_condition,
}

-- The condition of the type after the call.
abbrev pub written : ℕ → Setting → Option Condition → Condition
written now s none = fresh now s
written now s (some c) = overwrite now s c

find-append :
    (cs : List Condition) (d : Condition) (t : String)
    → find_condition cs t ≡ none
    → find_condition (cs ++ d ∷ []) t ≡ find_condition (d ∷ []) t
unfolding find_condition
find-append [] d t e = refl
find-append (c ∷ cs) d t e = ground (arith, find-append cs d t)

pub find-here :
    (d : Condition) (cs : List Condition) (t : String)
    → (d.ctype == t) ≡ true
    → find_condition (d ∷ cs) t ≡ some d
unfolding find_condition
find-here d cs t p = rw p refl

pub find-there :
    (d : Condition) (cs : List Condition) (t : String)
    → (d.ctype == t) ≡ false
    → find_condition (d ∷ cs) t ≡ find_condition cs t
unfolding find_condition
find-there d cs t p = rw p refl

overwrite_cong :
    (now : ℕ) (s : Setting) (d c : Condition)
    → some d ≡ some c
    → some (overwrite now s d) ≡ some (overwrite now s c)
overwrite_cong now s d c e = ap (λ o. elim o [ none ↦ none | some x ↦ some (overwrite now s x) ]) e

overwrite-ctype : (now : ℕ) (s : Setting) (c : Condition) → (overwrite now s c).ctype ≡ c.ctype
unfolding overwrite
overwrite-ctype now s c = refl

pub empty-none : (t : String) (c : Condition) → find_condition [] t ≡ some c → ⊥
unfolding find_condition
empty-none t c e = none-ne-some c e

pub set_condition-none :
    (now : ℕ) (s : Setting) (cs : List Condition)
    → find_condition cs s.ctype ≡ none
    → set_condition now s cs ≡ cs ++ fresh now s ∷ []
unfolding set_condition
set_condition-none now s cs e = rw (set_condition, e) refl

pub set_condition-some :
    (now : ℕ) (s : Setting) (cs : List Condition) (c : Condition)
    → find_condition cs s.ctype ≡ some c
    → set_condition now s cs ≡ overwrite_first now s cs
unfolding set_condition
set_condition-some now s cs c e = rw (set_condition, e) refl

find-overwrite_first :
    (now : ℕ) (s : Setting) (cs : List Condition) (c : Condition)
    → find_condition cs s.ctype ≡ some c
    → find_condition (overwrite_first now s cs) s.ctype ≡ some (overwrite now s c)
unfolding overwrite_first
find-overwrite_first now s [] c e = absurd (empty-none s.ctype c e)
find-overwrite_first now s (d ∷ cs) c e = elim (Bool-cases (d.ctype == s.ctype)) [
  | inl p ↦ rw p (
      find-here (overwrite now s d) cs s.ctype
        (ap (λ t. t == s.ctype) (overwrite-ctype now s d) ∙ p)
      ∙ overwrite_cong now s d c (sym (find-here d cs s.ctype p) ∙ e))
  | inr p ↦ rw p (
      find-there d (overwrite_first now s cs) s.ctype p
      ∙ find-overwrite_first now s cs c (sym (find-there d cs s.ctype p) ∙ e))
]

find-overwrite_first_other :
    (now : ℕ) (s : Setting) (cs : List Condition) (t : String)
    → (s.ctype == t) ≡ false
    → find_condition (overwrite_first now s cs) t ≡ find_condition cs t
unfolding find_condition overwrite overwrite_first
find-overwrite_first_other now s [] t h = refl
find-overwrite_first_other now s (d ∷ cs) t h =
    ground (arith, find-overwrite_first_other now s cs t h, eq_iff d.ctype s.ctype)

-- After `SetCondition` the condition of the written type is a fresh one if the list had none, and
-- otherwise the old one with the new status, reason, message and generation, whose transition time
-- is kept if the status is the same and set to the present if it is not.
pub find-set_condition :
    (now : ℕ) (s : Setting) (cs : List Condition)
    → find_condition (set_condition now s cs) s.ctype
      ≡ some (written now s (find_condition cs s.ctype))
find-set_condition now s cs = elim (Option-cases (find_condition cs s.ctype)) [
  | inl e ↦
      rw (e, set_condition-none now s cs e)
        (find-append cs (fresh now s) s.ctype e
          ∙ find-here (fresh now s) [] s.ctype (eq_refl s.ctype))
  | inr e ↦ rw (e.1, set_condition-some now s cs e.0 e.1) (find-overwrite_first now s cs e.0 e.1)
]

find-append_other :
    (cs : List Condition) (d : Condition) (t : String)
    → (d.ctype == t) ≡ false
    → find_condition (cs ++ d ∷ []) t ≡ find_condition cs t
unfolding find_condition
find-append_other [] d t h = rw h refl
find-append_other (c ∷ cs) d t h = rw (find-append_other cs d t h) refl

-- `SetCondition` leaves the condition of every other type as it was.
pub find-set_condition_other :
    (now : ℕ) (s : Setting) (cs : List Condition) (t : String)
    → t ≢ s.ctype
    → find_condition (set_condition now s cs) t ≡ find_condition cs t
find-set_condition_other now s cs t h = elim (Option-cases (find_condition cs s.ctype)) [
  | inl e ↦
      rw (set_condition-none now s cs e)
        (find-append_other cs (fresh now s) t (eq_of_ne s.ctype t (λ q. h (sym q))))
  | inr e ↦
      rw (set_condition-some now s cs e.0 e.1)
        (find-overwrite_first_other now s cs t (eq_of_ne s.ctype t (λ q. h (sym q))))
]

overwrite-twice :
    (now later : ℕ) (s : Setting) (c : Condition)
    → overwrite later s (overwrite now s c) ≡ overwrite now s c
unfolding overwrite
overwrite-twice now later s c = rw (eq_refl s.status) refl

overwrite_first-twice :
    (now later : ℕ) (s : Setting) (cs : List Condition)
    → overwrite_first later s (overwrite_first now s cs) ≡ overwrite_first now s cs
unfolding overwrite_first
overwrite_first-twice now later s [] = refl
overwrite_first-twice now later s (d ∷ cs) = elim (Bool-cases (d.ctype == s.ctype)) [
  | inl p ↦ rw (p, overwrite_first, overwrite-ctype now s d, p, overwrite-twice now later s d) refl
  | inr p ↦ rw (p, overwrite_first, p, overwrite_first-twice now later s cs) refl
]

overwrite_first-append :
    (now : ℕ) (s : Setting) (cs : List Condition) (d : Condition)
    → find_condition cs s.ctype ≡ none
    → overwrite_first now s (cs ++ d ∷ []) ≡ cs ++ overwrite_first now s (d ∷ [])
unfolding overwrite_first
overwrite_first-append now s [] d e = refl
overwrite_first-append now s (c ∷ cs) d e = elim (Bool-cases (c.ctype == s.ctype)) [
  | inl p ↦ absurd (none-ne-some c (sym e ∙ find-here c cs s.ctype p))
  | inr p ↦
      rw (overwrite_first, p)
        (ap (λ l. c ∷ l) (overwrite_first-append now s cs d (sym (find-there c cs s.ctype p) ∙ e)))
]

overwrite-fresh :
    (now later : ℕ) (s : Setting) → overwrite_first later s (fresh now s ∷ []) ≡ fresh now s ∷ []
unfolding overwrite overwrite_first
overwrite-fresh now later s = rw (eq_refl s.ctype, eq_refl s.status) refl

-- A second call of `SetCondition` with the same values, at a later time, changes nothing.
pub set_condition-twice :
    (now later : ℕ) (s : Setting) (cs : List Condition)
    → set_condition later s (set_condition now s cs) ≡ set_condition now s cs
set_condition-twice now later s cs = elim (Option-cases (find_condition cs s.ctype)) [
  | inl e ↦
      set_condition-some later s (set_condition now s cs) _ (find-set_condition now s cs)
      ∙ ap (overwrite_first later s) (set_condition-none now s cs e)
      ∙ overwrite_first-append later s cs (fresh now s) e
      ∙ ap (λ l. cs ++ l) (overwrite-fresh now later s)
      ∙ sym (set_condition-none now s cs e)
  | inr e ↦
      set_condition-some later s (set_condition now s cs) _ (find-set_condition now s cs)
      ∙ ap (overwrite_first later s) (set_condition-some now s cs e.0 e.1)
      ∙ overwrite_first-twice now later s cs
      ∙ sym (set_condition-some now s cs e.0 e.1)
]

-- The types of the conditions are pairwise different.
abbrev pub distinct : List Condition → Bool
distinct cs = unique (map (λ d. d.ctype) cs)

mem-types :
    (cs : List Condition) (t : String)
    → mem t (map (λ d. d.ctype) cs) ≡ is_some (find_condition cs t)
unfolding find_condition
mem-types [] t = refl
mem-types (c ∷ cs) t = ground (arith, mem-types cs t)

overwrite_first-types :
    (now : ℕ) (s : Setting) (cs : List Condition)
    → map (λ d. d.ctype) (overwrite_first now s cs) ≡ map (λ d. d.ctype) cs
unfolding overwrite overwrite_first
overwrite_first-types now s [] = refl
overwrite_first-types now s (c ∷ cs) = ground (arith, overwrite_first-types now s cs)

types-append :
    (cs : List Condition) (d : Condition)
    → map (λ c. c.ctype) (cs ++ d ∷ []) ≡ map (λ c. c.ctype) cs ++ d.ctype ∷ []
types-append [] d = refl
types-append (c ∷ cs) d = ap (λ ts. c.ctype ∷ ts) (types-append cs d)

distinct-append :
    (cs : List Condition) (d : Condition)
    → distinct cs ≡ true
    → mem d.ctype (map (λ c. c.ctype) cs) ≡ false
    → distinct (cs ++ d ∷ []) ≡ true
distinct-append cs d h e =
    ap unique (types-append cs d) ∙ unique-append_one d.ctype (map (λ c. c.ctype) cs) h e

-- `SetCondition` keeps the types of the conditions pairwise different.
pub set_condition-distinct :
    (now : ℕ) (s : Setting) (cs : List Condition)
    → distinct cs ≡ true
    → distinct (set_condition now s cs) ≡ true
set_condition-distinct now s cs h = elim (Option-cases (find_condition cs s.ctype)) [
  | inl e ↦
      rw (set_condition-none now s cs e)
        (distinct-append cs (fresh now s) h (mem-types cs s.ctype ∙ ap is_some e))
  | inr e ↦
      rw (set_condition-some now s cs e.0 e.1) (ap unique (overwrite_first-types now s cs) ∙ h)
]
