-- ===== src/E2e/Poller/Construction.antt =====
-- Which condition types `NewConditionPoller` of pkg/e2e/poller.go takes.
use seam_core.Prelude.{
  String, ◌≡◌, refl, ◌↔◌, inl, inr, Bool, true, false, Option-cases, mem, if◌then◌else◌,
}
use seam_core.Prelude.Int.{ℤ}
use seam_core.Kube.Client.{Error, Result, ok, err}
use seam_core.Conditions.Validate.{validate_condition, known_condition_types}
use seam_core.Conditions.Membership.{validate_condition_iff}
use seam_core.E2e.Poller.{ConditionPoller, new_condition_poller, rejects_type}

-- A type is rejected if it is not listed: no type is valid with an empty reason.
rejects_type-known_condition_types :
    (t : String) → rejects_type t ≡ (if mem t known_condition_types then false else true)
unfolding rejects_type
rejects_type-known_condition_types t = elim (Option-cases (validate_condition t "")) [
  | inl e ↦ absurd (((validate_condition_iff t "").0 e).1 refl)
  | inr e ↦ rw (e.1, rejects_type) refl
]

abbrev pub Made : Result ConditionPoller → Type 0
Made r = (p : ConditionPoller) × (r ≡ ok p)

known_iff :
    (m b : Bool) (e : Error) (p : ConditionPoller)
    → b ≡ (if m then false else true)
    → Made (if b then err e else ok p) ↔ (m ≡ true)
known_iff true b e p h = rw h ((λ x. refl), (λ x. (p, refl)))
known_iff false b e p h = rw h ((λ x. cc (x.1)), (λ x. cc))

-- `NewConditionPoller` makes a poller for the condition types that `KnownConditionTypes` lists, and
-- for no others, whatever the spans of time.
pub new_condition_poller_iff :
    (client_name resource namespace name condition_type want_status : String)
    → (timeout interval : ℤ)
    → Made (
        new_condition_poller client_name resource namespace name condition_type want_status timeout
          interval)
      ↔ (mem condition_type known_condition_types ≡ true)
unfolding new_condition_poller
new_condition_poller_iff c r ns n t w timeout interval =
    known_iff (mem t known_condition_types) (rejects_type t) _ _
      (rejects_type-known_condition_types t)
