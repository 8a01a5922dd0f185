-- ===== src/Lineage/Outcome/Verdict.antt =====
-- The rules that the comment on `classifyTerminalOutcome` of
-- internal/controller/outcome_reconciler.go gives for one condition, and what the function makes of
-- a list of conditions by them.
use seam_core.Prelude.{
  String, ◌≡◌, refl, ap, ◌⊎◌, inl, inr, true, false, List, [], ◌∷◌, ◌++◌, ◌==◌, eq_iff, Bool-cases,
  if◌then◌else◌, to_lower, contains, All, Dict,
}
use seam_core.Kube.Object.{Unstructured, RawCondition, fields, malformed, text_at, Value}
use seam_core.Lineage.Outcome.{
  Classified, classify_not_ready, classify_condition, outcome_of, classify_conditions,
  classify_terminal_outcome,
}

-- A condition with this type, status and reason settles the outcome.
pub data Verdict (type status reason outcome : String) : Type 0 where
  ready :
      type ≡ "Ready" → status ≡ "True" → outcome ≡ "Succeeded" → Verdict type status reason outcome
  drifting :
      type ≡ "Ready"
      → status ≡ "False"
      → contains (to_lower reason) "drift" ≡ true
      → outcome ≡ "Drifted"
      → Verdict type status reason outcome
  superseded :
      type ≡ "Ready"
      → status ≡ "False"
      → contains (to_lower reason) "drift" ≡ false
      → contains (to_lower reason) "superseded" ≡ true
      → outcome ≡ "Superseded"
      → Verdict type status reason outcome
  unready :
      type ≡ "Ready"
      → status ≡ "False"
      → contains (to_lower reason) "drift" ≡ false
      → contains (to_lower reason) "superseded" ≡ false
      → outcome ≡ "Failed"
      → Verdict type status reason outcome
  drifted :
      type ≡ "Drifted" → status ≡ "True" → outcome ≡ "Drifted" → Verdict type status reason outcome
  succeeded :
      type ≡ "Succeeded"
      → status ≡ "True"
      → outcome ≡ "Succeeded"
      → Verdict type status reason outcome
  failed :
      type ≡ "Failed" → status ≡ "True" → outcome ≡ "Failed" → Verdict type status reason outcome

-- Every verdict is what the code says of the condition.
Verdict-classify :
    (type status reason outcome : String)
    → Verdict type status reason outcome
    → classify_condition type status reason ≡ outcome
unfolding classify_condition classify_not_ready
Verdict-classify type status reason outcome (ready t s o) = rw (t, s, o) refl
Verdict-classify type status reason outcome (drifting t s d o) = rw (t, s, d, o) refl
Verdict-classify type status reason outcome (superseded t s d u o) = rw (t, s, d, u, o) refl
Verdict-classify type status reason outcome (unready t s d u o) = rw (t, s, d, u, o) refl
Verdict-classify type status reason outcome (drifted t s o) = rw (t, s, o) refl
Verdict-classify type status reason outcome (succeeded t s o) = rw (t, s, o) refl
Verdict-classify type status reason outcome (failed t s o) = rw (t, s, o) refl

Verdict-ne :
    (type status reason outcome : String)
    → Verdict type status reason outcome
    → (outcome == "") ≡ false
Verdict-ne type status reason outcome (ready t s o) = rw o refl
Verdict-ne type status reason outcome (drifting t s d o) = rw o refl
Verdict-ne type status reason outcome (superseded t s d u o) = rw o refl
Verdict-ne type status reason outcome (unready t s d u o) = rw o refl
Verdict-ne type status reason outcome (drifted t s o) = rw o refl
Verdict-ne type status reason outcome (succeeded t s o) = rw o refl
Verdict-ne type status reason outcome (failed t s o) = rw o refl

not_ready-Verdict :
    (type status reason : String)
    → type ≡ "Ready"
    → status ≡ "False"
    → Verdict type status reason (classify_not_ready reason)
unfolding classify_not_ready
not_ready-Verdict type status reason t s = elim (Bool-cases (contains (to_lower reason) "drift")) [
  | inl d ↦ rw d (drifting t s d refl)
  | inr d ↦ elim (Bool-cases (contains (to_lower reason) "superseded")) [
    | inl u ↦ rw (d, u) (superseded t s d u refl)
    | inr u ↦ rw (d, u) (unready t s d u refl)
  ]
]

-- The branch of a test on the status that has no other one.
on_true :
    (type status reason outcome : String)
    → (status ≡ "True" → Verdict type status reason outcome)
    → ((if status == "True" then outcome else "") == "") ≡ false
    → Verdict type status reason (if status == "True" then outcome else "")
on_true type status reason outcome v h = elim (Bool-cases (status == "True")) [
  | inl e ↦ rw e (v ((eq_iff status "True").0 e))
  | inr e ↦ absurd (cc (rw e at h))
]

on_ready :
    (type status reason : String)
    → type ≡ "Ready"
    → let o =
        if status == "True"
        then "Succeeded"
        else if status == "False"
        then classify_not_ready reason
        else "" in
      (o == "") ≡ false → Verdict type status reason o
on_ready type status reason t h = elim (Bool-cases (status == "True")) [
  | inl e ↦ rw e (ready t ((eq_iff status "True").0 e) refl)
  | inr e ↦ elim (Bool-cases (status == "False")) [
    | inl f ↦ rw (e, f) (not_ready-Verdict type status reason t ((eq_iff status "False").0 f))
    | inr f ↦ absurd (cc (rw (e, f) at h))
  ]
]

-- What the code says of a condition, unless it is "", is a verdict.
classify-Verdict :
    (type status reason : String)
    → (classify_condition type status reason == "") ≡ false
    → Verdict type status reason (classify_condition type status reason)
unfolding classify_condition
classify-Verdict type status reason h = elim (Bool-cases (type == "Ready")) [
  | inl a ↦ rw a (on_ready type status reason ((eq_iff type "Ready").0 a) (rw a at h))
  | inr a ↦ elim (Bool-cases (type == "Drifted")) [
    | inl b ↦
        rw (a, b)
          (on_true type status reason "Drifted" (λ s. drifted ((eq_iff type "Drifted").0 b) s refl)
            (rw (a, b) at h))
    | inr b ↦ elim (Bool-cases (type == "Succeeded")) [
      | inl c ↦
          rw (a, b, c)
            (on_true type status reason "Succeeded"
              (λ s. succeeded ((eq_iff type "Succeeded").0 c) s refl) (rw (a, b, c) at h))
      | inr c ↦ elim (Bool-cases (type == "Failed")) [
        | inl d ↦
            rw (a, b, c, d)
              (on_true type status reason "Failed" (λ s. failed ((eq_iff type "Failed").0 d) s refl)
                (rw (a, b, c, d) at h))
        | inr d ↦ absurd (cc (rw (a, b, c, d) at h))
      ]
    ]
  ]
]

-- The condition settles the outcome; one that is not an object never does.
abbrev pub Settles : RawCondition → String → Type 0
Settles malformed outcome = ⊥
Settles (fields m) outcome =
    Verdict (text_at m "type") (text_at m "status") (text_at m "reason") outcome

abbrev pub IsSilent : RawCondition → Type 0
IsSilent c = (outcome : String) → ¬ Settles c outcome

-- The outcome, the reason and the message are those of the first condition that settles one.
pub record Settled (cs : List RawCondition) (result : Classified) : Type 0 where
  pub before : List RawCondition
  pub entry : Dict Value
  pub after : List RawCondition
  pub split : cs ≡ before ++ fields entry ∷ after
  pub silent : All IsSilent before
  pub settles : Settles (fields entry) result.outcome_type
  pub reason : result.reason ≡ text_at entry "reason"
  pub message : result.message ≡ text_at entry "message"

silent :
    (type status reason outcome : String)
    → (classify_condition type status reason == "") ≡ true
    → ¬ Verdict type status reason outcome
silent type status reason outcome e v = cc (
  e,
  Verdict-ne type status reason outcome v,
  ap (λ o. o == "") (Verdict-classify type status reason outcome v),
)

-- The outcome of a list whose conditions settle none, or the first that does.
abbrev pub Classifies : List RawCondition → Classified → Type 0
Classifies cs result =
    ((result ≡ record { outcome_type = ""; reason = ""; message = "" }) × All IsSilent cs)
    ⊎ Settled cs result

more :
    (c : RawCondition) (cs : List RawCondition) (result : Classified)
    → IsSilent c
    → Classifies cs result
    → Classifies (c ∷ cs) result
more c cs result n (inl (e, h)) = inl (e, (n, h))
more c cs result n (inr h) = inr (record {
  before = c ∷ h.before;
  entry = h.entry;
  after = h.after;
  split = ap (λ l. c ∷ l) h.split;
  silent = (n, h.silent);
  settles = h.settles;
  reason = h.reason;
  message = h.message;
})

scan-Classifies : (cs : List RawCondition) → Classifies cs (classify_conditions cs)
unfolding classify_conditions
scan-Classifies [] = inl (refl, tt)
scan-Classifies (malformed ∷ cs) = more malformed cs _ (λ o v. v) (scan-Classifies cs)
scan-Classifies (fields m ∷ cs) = elim (Bool-cases (outcome_of m == "")) [
  | inl e ↦ rw e (
      more (fields m) cs _
        (λ o. silent (text_at m "type") (text_at m "status") (text_at m "reason") o e)
        (scan-Classifies cs))
  | inr e ↦ rw e (
      inr (record {
        before = [];
        entry = m;
        after = cs;
        split = refl;
        silent = tt;
        settles = classify-Verdict (text_at m "type") (text_at m "status") (text_at m "reason") e;
        reason = refl;
        message = refl;
      }))
]

-- `classifyTerminalOutcome` returns the outcome, the reason and the message of the first condition of
-- the list that settles an outcome by one of the rules, wherever in the order of the rules this one
-- stands, and three empty texts if no condition does. The rules: Ready is Succeeded if it is True, and
-- if it is False, Drifted for a reason that contains drift, else Superseded for one that contains
-- superseded, else Failed, in any case of letters; Drifted, Succeeded and Failed are themselves if
-- they are True.
pub classify_terminal_outcome-Classifies :
    (obj : Unstructured) → Classifies obj.conditions (classify_terminal_outcome obj)
unfolding classify_terminal_outcome
classify_terminal_outcome-Classifies obj = scan-Classifies obj.conditions

-- The rules are not applied in their order: of the conditions in the list, the first counts.
pub failed_before_ready :
    (failed_entry ready_entry : Dict Value) (cs : List RawCondition)
    → text_at failed_entry "type" ≡ "Failed"
    → text_at failed_entry "status" ≡ "True"
    → text_at ready_entry "type" ≡ "Ready"
    → text_at ready_entry "status" ≡ "True"
    → ((classify_conditions (fields failed_entry ∷ fields ready_entry ∷ cs)).outcome_type
        ≡ "Failed")
      × ((classify_conditions (fields ready_entry ∷ fields failed_entry ∷ cs)).outcome_type
          ≡ "Succeeded")
unfolding classify_conditions classify_condition
failed_before_ready f r cs a b c d = (rw (a, b) refl, rw (c, d) refl)
