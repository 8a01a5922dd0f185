-- ===== src/E2e/Poller/Success.antt =====
-- When `Poll` of pkg/e2e/poller.go succeeds.
use seam_core.Prelude.{
  ℕ, zero, suc, ◌+◌, ◌≤◌, ◌<◌, String, ◌≡◌, refl, ◌↔◌, ◌⊎◌, inl, inr, Bool, true, false, Option,
  none, some, arith, ltb, Bool-cases, Dict, List, eq_iff,
}
use seam_core.Kube.Object.{Value}
use seam_core.Kube.Client.{Error, Result, ok, err}
use seam_core.E2e.Reading.{ObjectField, extract_conditions, status_for}
use seam_core.E2e.Poller.{
  ConditionPoller, Cluster, after_wait, after_observe, after_read, after_clock, poll_loop, poll,
  begin, observe, observes, timed_out,
}

-- A read that shows the wanted status.
abbrev pub Shown : ConditionPoller → Result (Dict ObjectField) → Type 0
Shown p (ok obj) = status_for (extract_conditions obj).0 p.condition_type ≡ p.want_status
Shown p (err e) = ⊥

module _ {S : Type 0} (cluster : Cluster S) (p : ConditionPoller) (deadline : ℕ) where
  -- The states in which a round that starts in `s` reads, waits, and ends.
  abbrev pub reading : S → S
  reading s = (cluster.now s).1

  abbrev pub waiting : S → S
  waiting s = (cluster.fetch (reading s)).1

  abbrev pub ended : S → S
  ended s = (cluster.wait (waiting s)).1

  -- `n` rounds that start in time, do not see the status, and wait for a tick.
  pub data Rounds : ℕ → S → S → Type 0 where
    stay : {s : S} → Rounds 0 s s
    later :
        {n : ℕ} {s t : S}
        → (cluster.now s).0 ≤ deadline
        → ¬ Shown p (cluster.fetch (reading s)).0
        → (cluster.wait (waiting s)).0 ≡ none
        → Rounds n (ended s) t
        → Rounds (suc n) s t

  -- A round that starts in time and sees the status.
  abbrev pub Sees : S → Type 0
  Sees t = ((cluster.now t).0 ≤ deadline) × Shown p (cluster.fetch (reading t)).0

  abbrev pub Observed : ℕ → S → Type 0
  Observed fuel s = (n : ℕ) × (t : S) × (n < fuel) × Rounds n s t × Sees t

  observes_iff :
      (x : List (Dict Value) × String)
      → (observes cluster p x ≡ true) ↔ (status_for x.0 p.condition_type ≡ p.want_status)
  unfolding observes
  observes_iff (conds, first) = ground (
    arith,
    eq_iff first p.condition_type,
    eq_iff p.want_status (status_for conds p.condition_type),
    eq_iff (status_for conds p.condition_type) p.want_status,
  )

  observe_iff : (r : Result (Dict ObjectField)) → ((observe cluster p r).0 ≡ true) ↔ Shown p r
  unfolding observe
  observe_iff (ok obj) = observes_iff (extract_conditions obj)
  observe_iff (err e) = ((λ h. cc), (λ h. absurd h))

  abbrev Success : Option (Result (Unit {0})) × S → Type 0
  Success x = x.0 ≡ some (ok tt)

  module _ (next : String → S → Option (Result (Unit {0})) × S) where
    after_wait_sound :
        (seen : String) (x : Option Error × S)
        → Success (after_wait cluster p next seen x)
        → (x.0 ≡ none) × Success (next seen x.1)
    after_wait_sound seen (none, s) h = (refl, h)
    after_wait_sound seen (some e, s) h = cc

    after_observe_sound :
        (x : Bool × String) (s : S)
        → Success (after_observe cluster p next x s)
        → (x.0 ≡ true)
          ⊎ ((x.0 ≡ false) × ((cluster.wait s).0 ≡ none) × Success (next x.1 (cluster.wait s).1))
    after_observe_sound (true, seen) s h = inl refl
    after_observe_sound (false, seen) s h =
        let (w, k) = after_wait_sound seen (cluster.wait s) h in inr (refl, w, k)

    after_clock_sound :
        (last : String) (x : ℕ × S)
        → Success (after_clock cluster p next deadline last x)
        → (x.0 ≤ deadline) × Success (after_read cluster p next (cluster.fetch x.1))
    after_clock_sound last (t, s) h = elim (Bool-cases (ltb deadline t)) [
      | inl e ↦ let h' : some (err (timed_out cluster p last)) ≡ some (ok tt) = rw e at h in cc
      | inr e ↦ (ground arith, rw e at h)
    ]

    after_wait_complete :
        (seen : String) (x : Option Error × S)
        → x.0 ≡ none
        → Success (next seen x.1)
        → Success (after_wait cluster p next seen x)
    after_wait_complete seen (none, s) e h = h
    after_wait_complete seen (some q, s) e h = cc

    after_observe_seen :
        (x : Bool × String) (s : S) → x.0 ≡ true → Success (after_observe cluster p next x s)
    after_observe_seen (true, seen) s e = refl
    after_observe_seen (false, seen) s e = cc

    after_observe_later :
        (x : Bool × String) (s : S)
        → x.0 ≡ false
        → (cluster.wait s).0 ≡ none
        → Success (next x.1 (cluster.wait s).1)
        → Success (after_observe cluster p next x s)
    after_observe_later (true, seen) s e w h = cc
    after_observe_later (false, seen) s e w h = after_wait_complete seen (cluster.wait s) w h

    after_clock_complete :
        (last : String) (x : ℕ × S)
        → x.0 ≤ deadline
        → Success (after_read cluster p next (cluster.fetch x.1))
        → Success (after_clock cluster p next deadline last x)
    after_clock_complete last (t, s) e h = let q : ltb deadline t ≡ false = ground arith in rw q h

  hidden : (r : Result (Dict ObjectField)) → (observe cluster p r).0 ≡ false → ¬ Shown p r
  hidden r e h = let q = (observe_iff r).1 h in cc

  not_observed : (r : Result (Dict ObjectField)) → ¬ Shown p r → (observe cluster p r).0 ≡ false
  not_observed r h = elim (Bool-cases (observe cluster p r).0) [
    | inl e ↦ absurd (h ((observe_iff r).0 e))
    | inr e ↦ e
  ]

  poll_loop_sound :
      (fuel : ℕ) (last : String) (s : S)
      → Success (poll_loop cluster p fuel deadline last s)
      → Observed fuel s
  unfolding poll_loop
  poll_loop_sound zero last s h = cc
  poll_loop_sound (suc fuel) last s h =
      let next = poll_loop cluster p fuel deadline in
      let (started, g) = after_clock_sound next last (cluster.now s) h in
      let r = (cluster.fetch (reading s)).0 in
      elim (after_observe_sound next (observe cluster p r) (waiting s) g) [
        | inl e ↦ (0, s, omega arith, stay, (started, (observe_iff r).0 e))
        | inr (e, w, k) ↦
            let (n, t, lt, rounds, sees) = poll_loop_sound fuel _ (ended s) k in
            (suc n, t, omega arith, later started (hidden r e) w rounds, sees)
      ]

  poll_loop_complete :
      (fuel : ℕ) (last : String) {n : ℕ} {s t : S}
      → n < fuel
      → Rounds n s t
      → Sees t
      → Success (poll_loop cluster p fuel deadline last s)
  unfolding poll_loop
  poll_loop_complete zero last lt rounds sees = absurd (omega arith)
  poll_loop_complete (suc fuel) last {s} lt stay (started, shown) =
      after_clock_complete (poll_loop cluster p fuel deadline) last (cluster.now s) started (
        after_observe_seen _ (observe cluster p (cluster.fetch (reading s)).0) (waiting s)
          ((observe_iff (cluster.fetch (reading s)).0).1 shown))
  poll_loop_complete (suc fuel) last {s} lt (later started unseen w rounds) sees =
      let r = (cluster.fetch (reading s)).0 in
      after_clock_complete (poll_loop cluster p fuel deadline) last (cluster.now s) started (
        after_observe_later _ (observe cluster p r) (waiting s) (not_observed r unseen) w
          (poll_loop_complete fuel _ (omega arith) rounds sees))

module _ {S : Type 0} (cluster : Cluster S) (p : ConditionPoller) where
  abbrev pub ObservedFrom : ℕ → ℕ × S → Type 0
  ObservedFrom fuel (t, s) =
      Observed cluster p (t + p.timeout) fuel (cluster.new_ticker p.interval s)

  begin_iff :
      (fuel : ℕ) (x : ℕ × S) → ((begin cluster p fuel x).0 ≡ some (ok tt)) ↔ ObservedFrom fuel x
  unfolding begin
  begin_iff fuel (t, s) = (
    poll_loop_sound cluster p (t + p.timeout) fuel "" _,
    λ (n, u, lt, rounds, sees). poll_loop_complete cluster p (t + p.timeout) fuel "" lt rounds sees,
  )

  -- A poll succeeds if some round that starts before the deadline reads the wanted status, after
  -- rounds that start before the deadline, do not read it and end with a tick, and only then.
  pub poll_iff :
      (fuel : ℕ) (s : S)
      → ((poll cluster p fuel s).0 ≡ some (ok tt)) ↔ ObservedFrom fuel (cluster.now s)
  unfolding poll
  poll_iff fuel s = begin_iff fuel (cluster.now s)
