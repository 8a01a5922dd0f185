-- ===== src/Dns/Reconcile/Soundness.antt =====
-- What every run of the reconcilers of internal/controller/dsns_reconciler.go keeps, whatever the
-- API server answers.
use seam_core.Prelude.{
  mem, String, ◌≡◌, refl, ◌≢◌, ◌⊎◌, inl, inr, Bool, true, false, List, [], ◌∷◌, none, arith, eq_iff,
  if◌then◌else◌, All,
}
use seam_core.Kube.Object.{ObjectKey, Unstructured}
use seam_core.Kube.Client.{Error, Result, ok, err, Api, pure, raise, try_or, on_result}
use seam_core.Dns.Zone.{Record, record_key, record_type_a}
use seam_core.Dns.Event.{DsnsEvent, Delivery}
use seam_core.Dns.State.{
  new_dsns_state, set_sinks, set_static_record, remove_records, update_records, apply,
}
use seam_core.Dns.State.Ownership.{HasPlainType, record_at}
use seam_core.Dns.State.Reachable.{
  update, remove, static, Reach, start, next, IsOwned, Reach-IsSound,
}
use seam_core.Dns.Derive.{bare_record}
use seam_core.Dns.Derive.Kinds.{derive_records-HasPlainType}
use seam_core.Dns.Reconcile.{
  World, Reconciler, lift, modify, record_sent, apply_state, set_glue, refresh_ns_glue,
  reconcile_deleting, ensure_finalizer, write_records, reconcile_absent, reconcile_found, reconcile,
}

-- The key of the glue record of the nameserver, the only static record.
abbrev pub glue_key : String
glue_key = record_key record_type_a "ns"

glue_of_mem :
    (k : String) (ks : List String) → All (λ j. j ≡ glue_key) ks → mem k ks ≡ true → k ≡ glue_key
glue_of_mem k [] h m = cc
glue_of_mem k (j ∷ ks) h m = ground (arith, glue_of_mem k ks h.1, eq_iff j k)

module _ {Sink S : Type 0} where
  -- The state came about by calls of its methods, with no static record but the glue record.
  pub record IsReached (w : World Sink S) : Type 0 where
    pub statics : List String
    pub reached : Reach statics w.state
    pub only_glue : All (λ k. k ≡ glue_key) statics

  -- The action keeps the state reached, whether it returns or fails.
  record Keeps {A : Type 0} (m : Api (World Sink S) A) : Type 0 where
    at : (w : World Sink S) → IsReached w → IsReached (m w).1

  after_update :
      (w : World Sink S) (owner : String) (rs : List Record)
      → All HasPlainType rs
      → IsReached w
      → IsReached (record w { state = update_records w.state owner rs })
  after_update w owner rs p h = record {
    statics = h.statics;
    reached = next h.reached (update owner rs p);
    only_glue = h.only_glue;
  }

  Keeps-pure : {A : Type 0} (a : A) → Keeps (pure a)
  Keeps-pure a = record { at = λ w h. h }

  Keeps-raise : {A : Type 0} (e : Error) → Keeps (raise {A = A} e)
  Keeps-raise e = record { at = λ w h. h }

  Keeps-lift : {A : Type 0} (m : Api S A) → Keeps (lift m)
  Keeps-lift m = record {
    at = λ w h. record { statics = h.statics; reached = h.reached; only_glue = h.only_glue };
  }

  Keeps-try_or :
      {A B : Type 0} (m : Api (World Sink S) A) (f : A → Api (World Sink S) B)
      (g : Error → Api (World Sink S) B)
      → Keeps m
      → ((a : A) → Keeps (f a))
      → ((e : Error) → Keeps (g e))
      → Keeps (try_or m f g)
  Keeps-try_or m f g km kf kg = record { at = λ w h. go (m w) (km.at w h) }
    where
      go : (p : Result _ × World Sink S) → IsReached p.1 → IsReached (on_result f g p).1
      go (ok a, w) h = (kf a).at w h
      go (err e, w) h = (kg e).at w h

  Keeps-if :
      {A : Type 0} (b : Bool) (m n : Api (World Sink S) A)
      → Keeps m
      → Keeps n
      → Keeps (if b then m else n)
  Keeps-if true m n km kn = km
  Keeps-if false m n km kn = kn

  ruleset keeps_rules = (Keeps-pure, Keeps-raise, Keeps-lift, Keeps-try_or, Keeps-if)

  Keeps-remove : (owner : String) → Keeps (modify (λ s. remove_records s owner))
  Keeps-remove owner = record {
    at = λ w h. record {
      statics = h.statics;
      reached = next h.reached (remove owner);
      only_glue = h.only_glue;
    };
  }

  Keeps-update :
      (owner : String) (rs : List Record)
      → All HasPlainType rs
      → Keeps (modify (λ s. update_records s owner rs))
  Keeps-update owner rs p = record { at = λ w h. after_update w owner rs p h }

  Keeps-glue :
      (ip : String) → Keeps (modify (λ s. set_static_record s (bare_record "ns" record_type_a ip)))
  Keeps-glue ip = record {
    at = λ w h. record {
      statics = glue_key ∷ h.statics;
      reached = next h.reached (static (bare_record "ns" record_type_a ip));
      only_glue = (refl, h.only_glue);
    };
  }

  module _ (r : Reconciler S) where
    Keeps-apply_state : (events : List DsnsEvent) → Keeps (apply_state {Sink = Sink} r events)
    unfolding apply_state
    Keeps-apply_state events = record {
      at = λ w h. go w h (apply r.maps r.now w.state events w.outside);
    }
      where
        go :
            (w : World Sink S)
            → IsReached w
            → (p : Result (List (Delivery Sink)) × S) → IsReached (record_sent p w).1
        go w h (ok ds, t) = record {
          statics = h.statics;
          reached = h.reached;
          only_glue = h.only_glue;
        }
        go w h (err e, t) = record {
          statics = h.statics;
          reached = h.reached;
          only_glue = h.only_glue;
        }

    Keeps-set_glue : (ip : String) → Keeps (set_glue {Sink = Sink} r ip)
    unfolding set_glue
    Keeps-set_glue ip = search (keeps_rules, Keeps-glue)

    Keeps-refresh_ns_glue : Keeps (refresh_ns_glue {Sink = Sink} r)
    unfolding refresh_ns_glue
    Keeps-refresh_ns_glue = search (keeps_rules, Keeps-set_glue)

    Keeps-reconcile_deleting :
        (req : ObjectKey) (obj : Unstructured) → Keeps (reconcile_deleting {Sink = Sink} r req obj)
    unfolding reconcile_deleting
    Keeps-reconcile_deleting req obj = search (keeps_rules, Keeps-remove, Keeps-apply_state)

    Keeps-reconcile_absent : (req : ObjectKey) → Keeps (reconcile_absent {Sink = Sink} r req)
    unfolding reconcile_absent
    Keeps-reconcile_absent req = search (keeps_rules, Keeps-remove, Keeps-apply_state)

    Keeps-ensure_finalizer :
        (req : ObjectKey) (obj : Unstructured) → Keeps (ensure_finalizer {Sink = Sink} r req obj)
    unfolding ensure_finalizer
    Keeps-ensure_finalizer req obj = search keeps_rules

    Keeps-write_records :
        (req : ObjectKey) (obj : Unstructured) → Keeps (write_records {Sink = Sink} r req obj)
    unfolding write_records
    Keeps-write_records req obj =
        search (keeps_rules, Keeps-update, Keeps-apply_state, derive_records-HasPlainType)

    Keeps-reconcile_found :
        (req : ObjectKey) (obj : Unstructured) → Keeps (reconcile_found {Sink = Sink} r req obj)
    unfolding reconcile_found
    Keeps-reconcile_found req obj =
        search (keeps_rules, Keeps-reconcile_deleting, Keeps-ensure_finalizer, Keeps-write_records)

    Keeps-reconcile : (req : ObjectKey) → Keeps (reconcile {Sink = Sink} r req)
    unfolding reconcile
    Keeps-reconcile req =
        search (keeps_rules, Keeps-refresh_ns_glue, Keeps-reconcile_found, Keeps-reconcile_absent)

  -- The process at its start, with its sinks.
  abbrev pub initial : List Sink → S → World Sink S
  initial sinks outside = record {
    state = set_sinks new_dsns_state sinks;
    outside = outside;
    sent = [];
  }

  -- The world after a sequence of reconciles, by any reconcilers.
  unfoldable pub serve : List (Reconciler S × ObjectKey) → World Sink S → World Sink S
  unfolding reconcile
  serve [] w = w
  serve ((r, req) ∷ rs) w = serve rs (reconcile r req w).1

  serve-IsReached :
      (rs : List (Reconciler S × ObjectKey)) (w : World Sink S)
      → IsReached w
      → IsReached (serve rs w)
  unfolding serve
  serve-IsReached [] w h = h
  serve-IsReached ((r, req) ∷ rs) w h =
      serve-IsReached rs (reconcile r req w).1 ((Keeps-reconcile r req).at w h)

  -- After any reconciles by any reconcilers that start with an empty zone, whatever the API server
  -- answered to each call and also where they failed, each record of the zone is the glue record
  -- of the nameserver or has a key that some object owns.
  pub serve_accounted :
      (rs : List (Reconciler S × ObjectKey)) (sinks : List Sink) (outside : S) (k : String)
      → let s = (serve rs (initial sinks outside)).state in
        record_at s.zone k ≢ none → (k ≡ glue_key) ⊎ IsOwned {Sink = Sink} s k
  serve_accounted rs sinks outside k n =
      let h =
        serve-IsReached rs (initial sinks outside)
          (record { statics = []; reached = start sinks; only_glue = tt }) in
      elim ((Reach-IsSound h.reached).accounted k n) [
        | inl m ↦ inl (glue_of_mem k h.statics h.only_glue m)
        | inr o ↦ inr o
      ]
