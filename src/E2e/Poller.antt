-- ===== src/E2e/Poller.antt =====
-- pkg/e2e/poller.go: the wait for a condition of a custom resource, up to a deadline.
pub mod Construction
pub mod Deadline
pub mod Success
use seam_core.Prelude.{
  ℕ, zero, suc, ◌+◌, ◌*◌, String, Bool, true, false, ◌&&◌, ◌||◌, List, [], ◌∷◌, map, Option, none,
  some, ◌==◌, ltb, if◌then◌else◌, any, join, quote, ◌⊕◌, Dict, get,
}
use seam_core.Prelude.Int.{ℤ, pos, negsuc}
use seam_core.Kube.Object.{Value}
use seam_core.Kube.Client.{ApiError, Error, api, wrap, message, Result, ok, err, Api}
use seam_core.Conditions.Validate.{validate_condition, known_condition_types}
use seam_core.E2e.Reading.{ObjectField, extract_conditions, status_for, format_conditions}
use seam_core.E2e.Duration.{second, minute, duration_text}

abbrev pub default_poll_timeout : ℕ
default_poll_timeout = 5 * minute

abbrev pub default_poll_interval : ℕ
default_poll_interval = 5 * second

-- The cluster is known by its name; its client is the `Cluster` of a poll.
pub record ConditionPoller : Type 0 where
  pub client_name : String
  pub resource : String
  pub namespace : String
  pub name : String
  pub condition_type : String
  pub want_status : String
  pub timeout : ℕ
  pub interval : ℕ

-- A span of time that is zero or negative is replaced.
abbrev pub positive_or : ℕ → ℤ → ℕ
positive_or default (pos zero) = default
positive_or default (pos (suc n)) = suc n
positive_or default (negsuc n) = default

unfoldable pub make_poller :
    String → String → String → String → String → String → ℤ → ℤ → ConditionPoller
make_poller client_name resource namespace name condition_type want_status timeout interval =
    record {
      client_name = client_name;
      resource = resource;
      namespace = namespace;
      name = name;
      condition_type = condition_type;
      want_status = want_status;
      timeout = positive_or default_poll_timeout timeout;
      interval = positive_or default_poll_interval interval;
    }

-- The test of the type: an error of `ValidateCondition`, for a type that is not listed either.
unfoldable pub rejects_type : String → Bool
rejects_type type = elim (validate_condition type "") [
  | none ↦ false
  | some e ↦ if any (λ t. t == type) known_condition_types then false else true
]

unfoldable pub new_condition_poller :
    String → String → String → String → String → String → ℤ → ℤ → Result ConditionPoller
unfolding make_poller rejects_type
new_condition_poller client_name resource namespace name condition_type want_status timeout
      interval =
    if rejects_type condition_type
    then err (
        message (
          "e2e: ConditionPoller: unknown condition type "
          ⊕ quote condition_type
          ⊕ ": known types are ["
          ⊕ join known_condition_types " "
          ⊕ "]"))
    else ok (
        make_poller client_name resource namespace name condition_type want_status timeout interval)

-- What a poll runs on: the clock in nanoseconds, a new ticker of an interval, the read of the
-- object, the `select`, with `none` for a tick and the error of the context where it is done, and
-- the text of an API error.
pub record Cluster (S : Type 0) : Type 0 where
  pub now : S → ℕ × S
  pub new_ticker : ℕ → S → S
  pub fetch : Api S (Dict ObjectField)
  pub wait : S → Option Error × S
  pub describe : ApiError → String

module _ {S : Type 0} (cluster : Cluster S) where
  -- `%v` of an error
  unfoldable pub error_text : Error → String
  error_text (api e) = cluster.describe e
  error_text (wrap p e) = p ⊕ ": " ⊕ error_text e
  error_text (message m) = m

  module _ (p : ConditionPoller) where
    -- The wanted status was observed.
    unfoldable pub observes : List (Dict Value) × String → Bool
    unfolding status_for
    observes (conds, observed) =
        (observed == p.condition_type && p.want_status == status_for conds p.condition_type)
        || status_for conds p.condition_type == p.want_status

    unfoldable pub timed_out : String → Error
    timed_out last = message (
        "e2e: cluster "
        ⊕ quote p.client_name
        ⊕ ": condition "
        ⊕ quote p.condition_type
        ⊕ " on "
        ⊕ p.resource
        ⊕ "/"
        ⊕ p.namespace
        ⊕ "/"
        ⊕ p.name
        ⊕ " did not reach "
        ⊕ quote p.want_status
        ⊕ " within "
        ⊕ duration_text p.timeout
        ⊕ ": last observed conditions: "
        ⊕ last)

    unfoldable pub cancelled : Error → Error
    cancelled e = wrap ("e2e: cluster " ⊕ quote p.client_name ⊕ ": condition poll cancelled") e

    -- Whether a read shows the status, and what is remembered of it.
    unfoldable pub observe : Result (Dict ObjectField) → Bool × String
    unfolding extract_conditions format_conditions observes error_text
    observe (err e) = (false, "<Get error: " ⊕ error_text e ⊕ ">")
    observe (ok obj) =
        (observes (extract_conditions obj), format_conditions (extract_conditions obj).0)

    -- The rounds of `Poll`: the clock, the read, the wait. `next` is the round behind this one.
    module _ (next : String → S → Option (Result (Unit {0})) × S) where
      abbrev pub after_wait : String → Option Error × S → Option (Result (Unit {0})) × S
      after_wait seen (none, s) = next seen s
      after_wait seen (some e, s) = (some (err (cancelled e)), s)

      abbrev pub after_observe : Bool × String → S → Option (Result (Unit {0})) × S
      after_observe (true, seen) s = (some (ok tt), s)
      after_observe (false, seen) s = after_wait seen (cluster.wait s)

      abbrev pub after_read : Result (Dict ObjectField) × S → Option (Result (Unit {0})) × S
      after_read (read, s) = after_observe (observe read) s

      abbrev pub after_clock : ℕ → String → ℕ × S → Option (Result (Unit {0})) × S
      after_clock deadline last (t, s) =
          if ltb deadline t then (some (err (timed_out last)), s) else after_read (cluster.fetch s)

    -- `none` means that the fuel ran out.
    unfoldable pub poll_loop : ℕ → ℕ → String → S → Option (Result (Unit {0})) × S
    poll_loop zero deadline last s = (none, s)
    poll_loop (suc fuel) deadline last s =
        after_clock (poll_loop fuel deadline) deadline last (cluster.now s)

    unfoldable pub begin : ℕ → ℕ × S → Option (Result (Unit {0})) × S
    unfolding poll_loop
    begin fuel (t, s) = poll_loop fuel (t + p.timeout) "" (cluster.new_ticker p.interval s)

    unfoldable pub poll : ℕ → S → Option (Result (Unit {0})) × S
    unfolding begin
    poll fuel s = begin fuel (cluster.now s)
