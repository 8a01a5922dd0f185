-- ===== src/Conditions/Replaced.antt =====
-- `SetCondition` of pkg/conditions/conditions.go against what it is to do to the whole list.
use mathlib.Core.Option.{none-ne-some}
use seam_core.Prelude.{
  ℕ, ◌≡◌, refl, sym, ap, ◌∙◌, ◌≢◌, ◌⊎◌, inl, inr, false, subst, List, [], ◌∷◌, ◌++◌, none, some,
  ◌==◌, eq_iff, eq_of_ne, Bool-cases, Option-cases, All,
}
use seam_core.Conditions.Update.{
  Condition, Setting, find_condition, fresh, overwrite, overwrite_first, set_condition,
}
use seam_core.Conditions.Transition.{
  find-here, find-there, empty-none, set_condition-none, set_condition-some,
}

-- The condition has the values of the call.
pub record IsWritten (s : Setting) (new : Condition) : Type 0 where
  pub ctype : new.ctype ≡ s.ctype
  pub status : new.status ≡ s.status
  pub reason : new.reason ≡ s.reason
  pub message : new.message ≡ s.message
  pub observed_generation : new.observed_generation ≡ s.observed_generation

abbrev pub HasOther : Setting → Condition → Type 0
HasOther s c = c.ctype ≢ s.ctype

-- No condition has the type, and one is put at the end, with the present as its time.
pub record Appended (now : ℕ) (s : Setting) (cs result : List Condition) : Type 0 where
  pub new : Condition
  pub absent : All (HasOther s) cs
  pub appended : result ≡ cs ++ new ∷ []
  pub written : IsWritten s new
  pub time : new.last_transition_time ≡ now

-- The first condition of the type is replaced in its place; its time moves with the status only.
pub record Replaced (now : ℕ) (s : Setting) (cs result : List Condition) : Type 0 where
  pub before : List Condition
  pub old : Condition
  pub new : Condition
  pub after : List Condition
  pub split : cs ≡ before ++ old ∷ after
  pub first : All (HasOther s) before
  pub found : old.ctype ≡ s.ctype
  pub replaced : result ≡ before ++ new ∷ after
  pub written : IsWritten s new
  pub kept_time : old.status ≡ s.status → new.last_transition_time ≡ old.last_transition_time
  pub new_time : old.status ≢ s.status → new.last_transition_time ≡ now

other_type : (s : Setting) (c : Condition) → (c.ctype == s.ctype) ≡ false → HasOther s c
other_type s c p e = cc ((eq_iff c.ctype s.ctype).1 e)

absent_type :
    (s : Setting) (cs : List Condition) → find_condition cs s.ctype ≡ none → All (HasOther s) cs
absent_type s [] e = tt
absent_type s (c ∷ cs) e = elim (Bool-cases (c.ctype == s.ctype)) [
  | inl p ↦ absurd (none-ne-some c (sym e ∙ find-here c cs s.ctype p))
  | inr p ↦ (other_type s c p, absent_type s cs (sym (find-there c cs s.ctype p) ∙ e))
]

fresh-IsWritten : (now : ℕ) (s : Setting) → IsWritten s (fresh now s)
fresh-IsWritten now s = record {
  ctype = refl;
  status = refl;
  reason = refl;
  message = refl;
  observed_generation = refl;
}

overwrite-IsWritten :
    (now : ℕ) (s : Setting) (c : Condition) → c.ctype ≡ s.ctype → IsWritten s (overwrite now s c)
unfolding overwrite
overwrite-IsWritten now s c e = record {
  ctype = e;
  status = refl;
  reason = refl;
  message = refl;
  observed_generation = refl;
}

overwrite_kept :
    (now : ℕ) (s : Setting) (c : Condition)
    → c.status ≡ s.status
    → (overwrite now s c).last_transition_time ≡ c.last_transition_time
unfolding overwrite
overwrite_kept now s c e = simp ((eq_iff c.status s.status).1 e) refl

overwrite_moved :
    (now : ℕ) (s : Setting) (c : Condition)
    → c.status ≢ s.status
    → (overwrite now s c).last_transition_time ≡ now
unfolding overwrite
overwrite_moved now s c n = simp (eq_of_ne c.status s.status n) refl

more :
    (now : ℕ) (s : Setting) (c : Condition) (cs result : List Condition)
    → HasOther s c
    → Replaced now s cs result
    → Replaced now s (c ∷ cs) (c ∷ result)
more now s c cs result n h = record {
  before = c ∷ h.before;
  old = h.old;
  new = h.new;
  after = h.after;
  split = ap (λ l. c ∷ l) h.split;
  first = (n, h.first);
  found = h.found;
  replaced = ap (λ l. c ∷ l) h.replaced;
  written = h.written;
  kept_time = h.kept_time;
  new_time = h.new_time;
}

overwrite_first-Replaced :
    (now : ℕ) (s : Setting) (cs : List Condition) (c : Condition)
    → find_condition cs s.ctype ≡ some c
    → Replaced now s cs (overwrite_first now s cs)
unfolding overwrite_first
overwrite_first-Replaced now s [] c e = absurd (empty-none s.ctype c e)
overwrite_first-Replaced now s (d ∷ cs) c e = elim (Bool-cases (d.ctype == s.ctype)) [
  | inl p ↦ rw p (record {
    before = [];
    old = d;
    new = overwrite now s d;
    after = cs;
    split = refl;
    first = tt;
    found = (eq_iff d.ctype s.ctype).0 p;
    replaced = refl;
    written = overwrite-IsWritten now s d ((eq_iff d.ctype s.ctype).0 p);
    kept_time = overwrite_kept now s d;
    new_time = overwrite_moved now s d;
  })
  | inr p ↦ rw p (
      more now s d cs (overwrite_first now s cs) (other_type s d p)
        (overwrite_first-Replaced now s cs c (sym (find-there d cs s.ctype p) ∙ e)))
]

-- `SetCondition` puts a condition with the given type, status, reason, message and generation at the
-- end of a list that has none of the type, with the present as its transition time. In another list
-- it replaces the first condition of the type in its place by one with these values, whose transition
-- time is the old one if the status is the same, and the present if it is not. No other condition
-- changes.
pub set_condition_lem :
    (now : ℕ) (s : Setting) (cs : List Condition)
    → Appended now s cs (set_condition now s cs) ⊎ Replaced now s cs (set_condition now s cs)
set_condition_lem now s cs = elim (Option-cases (find_condition cs s.ctype)) [
  | inl e ↦ inl (record {
    new = fresh now s;
    absent = absent_type s cs e;
    appended = set_condition-none now s cs e;
    written = fresh-IsWritten now s;
    time = refl;
  })
  | inr e ↦ inr (
      subst (Replaced now s cs) (sym (set_condition-some now s cs e.0 e.1))
        (overwrite_first-Replaced now s cs e.0 e.1))
]
