-- ===== src/E2e/Poller/Deadline.antt =====
-- How long `Poll` of pkg/e2e/poller.go can take: the ticker drives it to its deadline.
use seam_core.Prelude.{
  ℕ, zero, suc, ◌+◌, ◌*◌, ◌/◌, ◌≤◌, ◌<◌, String, ◌≡◌, refl, inl, inr, Bool, true, false, Option,
  none, some, arith, ltb, if◌then◌else◌, Bool-cases, subst,
}
use seam_core.Prelude.Int.{ℤ, pos, negsuc}
use seam_core.Kube.Client.{Error, Result, ok, err}
use seam_core.E2e.Poller.{
  ConditionPoller, Cluster, after_wait, after_observe, after_clock, poll_loop, poll, begin, observe,
  positive_or, new_condition_poller, make_poller, rejects_type, default_poll_interval,
}

-- What the loop relies on of the clock and of a ticker: `Ticking o d k s` says that in `s` a ticker
-- of the interval `d`, made at the time `o`, has been received from `k` times. The k-th tick does
-- not come before k intervals have passed, though ticks that were not waited for come at once.
pub record IsTicker {S : Type 0} (cluster : Cluster S) (Ticking : ℕ → ℕ → ℕ → S → Type 0)
    : Type 0 where
  pub made :
      (d : ℕ) (s : S) → Ticking (cluster.now s).0 d 0 (cluster.new_ticker d (cluster.now s).1)
  pub reads :
      (o d k : ℕ) (s : S)
      → Ticking o d k s
      → (o + k * d ≤ (cluster.now s).0) × Ticking o d k (cluster.now s).1
  pub fetches : (o d k : ℕ) (s : S) → Ticking o d k s → Ticking o d k (cluster.fetch s).1
  pub waits :
      (o d k : ℕ) (s : S)
      → Ticking o d k s
      → (cluster.wait s).0 ≡ none
      → Ticking o d (suc k) (cluster.wait s).1

-- The fuel was enough.
abbrev pub Returns : {S : Type 0} → Option (Result (Unit {0})) × S → Type 0
Returns x = (r : Result (Unit {0})) × (x.0 ≡ some r)

module _ {S : Type 0} (cluster : Cluster S) (p : ConditionPoller) where
  module _ (next : String → S → Option (Result (Unit {0})) × S) where
    after_wait-Returns :
        (seen : String) (x : Option Error × S)
        → (x.0 ≡ none → Returns (next seen x.1))
        → Returns (after_wait cluster p next seen x)
    after_wait-Returns seen (none, s) h = h refl
    after_wait-Returns seen (some e, s) h = (_, refl)

    after_observe-Returns :
        (x : Bool × String) (s : S)
        → ((seen : String) → (cluster.wait s).0 ≡ none → Returns (next seen (cluster.wait s).1))
        → Returns (after_observe cluster p next x s)
    after_observe-Returns (true, seen) s h = (_, refl)
    after_observe-Returns (false, seen) s h = after_wait-Returns seen (cluster.wait s) (h seen)

  module _ (Ticking : ℕ → ℕ → ℕ → S → Type 0) (ticker : IsTicker cluster Ticking) where
    -- A reading behind the deadline ends the loop.
    expired :
        (next : String → S → Option (Result (Unit {0})) × S)
        → (deadline : ℕ) (last : String) (x : ℕ × S) → deadline < x.0
        → Returns (after_clock cluster p next deadline last x)
    expired next deadline last (t, s) h =
        let e : ltb deadline t ≡ true = ground arith in rw e (_, refl)

    round :
        (next : String → S → Option (Result (Unit {0})) × S)
        → (deadline : ℕ) (last : String) (o d k : ℕ) (x : ℕ × S) → Ticking o d k x.1
        → ((seen : String) (s : S) → Ticking o d (suc k) s → Returns (next seen s))
        → Returns (after_clock cluster p next deadline last x)
    round next deadline last o d k (t, s) h ih = elim (Bool-cases (ltb deadline t)) [
      | inl e ↦ rw e (_, refl)
      | inr e ↦ rw e (
          after_observe-Returns next (observe cluster p (cluster.fetch s).0) (cluster.fetch s).1
            (λ seen q. ih seen _ (ticker.waits o d k _ (ticker.fetches o d k s h) q)))
    ]

    poll_loop-Returns :
        (n deadline : ℕ) (last : String) (o d k : ℕ) (s : S)
        → Ticking o d k s
        → deadline < o + (k + n) * d
        → Returns (poll_loop cluster p (suc n) deadline last s)
    unfolding poll_loop
    poll_loop-Returns zero deadline last o d k s h lt = expired _ deadline last (cluster.now s) (
        let e : k + 0 ≡ k = omega arith in
        let h' : deadline < o + k * d = rw e at lt in omega (arith, (ticker.reads o d k s h).0))
    poll_loop-Returns (suc n) deadline last o d k s h lt =
        round _ deadline last o d k (cluster.now s) (ticker.reads o d k s h).1 (λ seen t g.
          poll_loop-Returns n deadline seen o d (suc k) t g
            (let e : k + suc n ≡ suc k + n = omega arith in rw e at lt))

    begin-Returns :
        (n : ℕ) (x : ℕ × S)
        → Ticking x.0 p.interval 0 (cluster.new_ticker p.interval x.1)
        → p.timeout < n * p.interval
        → Returns (begin cluster p (suc n) x)
    unfolding begin poll_loop
    begin-Returns n (t, s) h lt =
        poll_loop-Returns n (t + p.timeout) "" t p.interval 0 _ h
          (let e : 0 + n ≡ n = omega arith in rw e (omega arith))

past_timeout : (a b : ℕ) → 0 < b → a < (a / b + 1) * b
past_timeout a b h = grind arith

positive_or_pos : (d : ℕ) (z : ℤ) → 0 < d → 0 < positive_or d z
positive_or_pos d (pos zero) h = h
positive_or_pos d (pos (suc n)) h = omega arith
positive_or_pos d (negsuc n) h = h

taken : (b : Bool) (e : Error) (q p : ConditionPoller) → (if b then err e else ok q) ≡ ok p → q ≡ p
taken true e q p h = cc
taken false e q p h = cc

-- A poller that `NewConditionPoller` makes has a positive interval.
pub interval_pos :
    (client_name resource namespace name condition_type want_status : String)
    → (timeout interval : ℤ) (p : ConditionPoller)
    → new_condition_poller client_name resource namespace name condition_type want_status timeout
        interval
      ≡ ok p
    → 0 < p.interval
unfolding new_condition_poller make_poller
interval_pos c r ns n t w timeout interval p e =
    subst (λ (q : ConditionPoller). 0 < q.interval) (taken (rejects_type t) _ _ p e)
      (positive_or_pos default_poll_interval interval (omega arith))

-- Every poll returns, by a poller that `NewConditionPoller` made and on a clock and a ticker that
-- keep time: within one round for each interval in the timeout and two more, it has read the
-- status, or the context has ended, or the deadline has passed.
pub poll-Returns :
    {S : Type 0} (cluster : Cluster S) (Ticking : ℕ → ℕ → ℕ → S → Type 0)
    → IsTicker cluster Ticking
    → (client_name resource namespace name condition_type want_status : String)
    → (timeout interval : ℤ) (p : ConditionPoller)
    → new_condition_poller client_name resource namespace name condition_type want_status timeout
        interval
      ≡ ok p
    → (s : S) → Returns (poll cluster p (p.timeout / p.interval + 2) s)
unfolding poll
poll-Returns cluster Ticking ticker c r ns n t w timeout interval p e s =
    let h = interval_pos c r ns n t w timeout interval p e in
    let f : p.timeout / p.interval + 2 ≡ suc (p.timeout / p.interval + 1) = omega arith in
    rw f (
      begin-Returns cluster p Ticking ticker (p.timeout / p.interval + 1) (cluster.now s)
        (ticker.made p.interval s) (past_timeout p.timeout p.interval h))
