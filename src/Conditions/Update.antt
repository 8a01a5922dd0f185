-- ===== src/Conditions/Update.antt =====
-- `SetCondition` and `FindCondition` of pkg/conditions/conditions.go.
use seam_core.Prelude.{
  ℕ, String, List, [], ◌∷◌, ◌++◌, Option, none, some, ◌==◌, if◌then◌else◌, find,
}

-- metav1.Condition; `type` is its type, and times are seconds.
pub record Condition : Type 0 where
  pub ctype : String
  pub status : String
  pub reason : String
  pub message : String
  pub observed_generation : ℕ
  pub last_transition_time : ℕ

-- The condition that a call of `SetCondition` writes.
pub record Setting : Type 0 where
  pub ctype : String
  pub status : String
  pub reason : String
  pub message : String
  pub observed_generation : ℕ

-- The first condition of the type; the code returns a pointer to it.
unfoldable pub find_condition : List Condition → String → Option Condition
find_condition cs type = find (λ c. c.ctype == type) cs

abbrev pub fresh : ℕ → Setting → Condition
fresh now s = record {
  ctype = s.ctype;
  status = s.status;
  reason = s.reason;
  message = s.message;
  observed_generation = s.observed_generation;
  last_transition_time = now;
}

-- The writes through the pointer; the time moves with the status only.
unfoldable pub overwrite : ℕ → Setting → Condition → Condition
overwrite now s c = record c {
  last_transition_time = if c.status == s.status then c.last_transition_time else now;
  status = s.status;
  reason = s.reason;
  message = s.message;
  observed_generation = s.observed_generation;
}

-- The slice after the writes through the pointer to the first condition of the type.
unfoldable pub overwrite_first : ℕ → Setting → List Condition → List Condition
unfolding overwrite
overwrite_first now s [] = []
overwrite_first now s (c ∷ cs) =
    let rest = overwrite_first now s cs in
    if c.ctype == s.ctype then overwrite now s c ∷ cs else c ∷ rest

unfoldable pub set_condition : ℕ → Setting → List Condition → List Condition
unfolding find_condition overwrite_first
set_condition now s cs = elim (find_condition cs s.ctype) [
  | none ↦ cs ++ fresh now s ∷ []
  | some _ ↦ overwrite_first now s cs
]
