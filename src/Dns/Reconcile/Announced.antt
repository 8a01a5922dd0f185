-- ===== src/Dns/Reconcile/Announced.antt =====
-- The notifications that a reconcile of internal/controller/dsns_reconciler.go sends to the sinks of
-- internal/dns/sink_registry.go.
use seam_core.Prelude.{
  ℕ, suc, String, ◌≡◌, refl, sym, ap, ◌⊎◌, inl, inr, true, false, List, [], ◌∷◌, ◌++◌, map, All,
  subst,
}
use seam_core.Kube.Object.{ObjectKey, Unstructured}
use seam_core.Kube.Client.{Error, Result, ok, err, wrap, Api, pure, raise, on_result}
use seam_core.Dns.Event.{DsnsEvent, SourceRef, Delivery, sink_timeout, deliveries, notify}
use seam_core.Dns.Zone.{render}
use seam_core.Dns.Writer.{apply_content}
use seam_core.Dns.Reconcile.{World, Reconciler, record_sent, contains_dsns_finalizer, apply_state}

deliveries-sinks :
    {Sink : Type 0} (i : ℕ) (e : DsnsEvent) (ss : List Sink)
    → map (λ d. d.sink) (deliveries i e ss) ≡ ss
unfolding deliveries
deliveries-sinks i e [] = refl
deliveries-sinks i e (s ∷ ss) = ap (λ l. s ∷ l) (deliveries-sinks (suc i) e ss)

deliveries-event :
    {Sink : Type 0} (i : ℕ) (e : DsnsEvent) (ss : List Sink)
    → All (λ (d : Delivery Sink). (d.event ≡ e) × (d.timeout ≡ sink_timeout)) (deliveries i e ss)
unfolding deliveries
deliveries-event i e [] = tt
deliveries-event i e (s ∷ ss) = ((refl, refl), deliveries-event (suc i) e ss)

module _ {S : Type 0} (r : Reconciler S) (req : ObjectKey) where
  abbrev pub source : SourceRef
  source = record {
    group = r.gvk.group;
    version = r.gvk.version;
    kind = r.gvk.kind;
    name = req.name;
    namespace = req.namespace;
  }

  -- The object as it was read is being deleted and no longer has the finalizer.
  pub record Finished : Type 0 where
    pub obj : Unstructured
    pub at_read : S
    pub read : (r.objects.fetch (r.gvk, req) at_read).0 ≡ ok obj
    pub deleting : obj.deleting ≡ true
    pub released : contains_dsns_finalizer obj ≡ false

module _ {Sink S : Type 0} (r : Reconciler S) (req : ObjectKey) where
  -- To what was sent one goroutine for each of the sinks has been added, in their order and with
  -- one event about the object; the zone as it stands was written before.
  pub record Announced (sinks : List Sink) (sent : List (Delivery Sink)) (v : World Sink S)
      : Type 0 where
    pub event : DsnsEvent
    pub about : event.source_ref ≡ source r req
    pub more : List (Delivery Sink)
    pub added : v.sent ≡ sent ++ more
    pub each : map (λ d. d.sink) more ≡ sinks
    pub same : All (λ (d : Delivery Sink). (d.event ≡ event) × (d.timeout ≡ sink_timeout)) more
    pub before : S
    pub wrote : (apply_content r.maps (render r.now v.state.zone) before).0 ≡ ok tt

  -- The outcome of a reconcile for the sinks.
  abbrev pub Told : List Sink → List (Delivery Sink) → Result (Unit {0}) × World Sink S → Type 0
  Told sinks sent (ok _, v) = Announced sinks sent v ⊎ ((v.sent ≡ sent) × Finished r req)
  Told sinks sent (err _, v) = Announced sinks sent v ⊎ (v.sent ≡ sent)

  -- The outcome of a write of the zone.
  abbrev pub Tried : List Sink → List (Delivery Sink) → Result (Unit {0}) × World Sink S → Type 0
  Tried sinks sent (ok _, v) = Announced sinks sent v
  Tried sinks sent (err _, v) = v.sent ≡ sent

  -- A call that sends nothing and leaves the sinks.
  abbrev pub Calm :
      {A : Type 0} → List Sink → List (Delivery Sink) → Result A × World Sink S → Type 0
  Calm sinks sent p = (p.1.sent ≡ sent) × (p.1.state.sinks ≡ sinks)

  pub Tried-Told :
      (sinks : List Sink) (sent : List (Delivery Sink)) (p : Result (Unit {0}) × World Sink S)
      → Tried sinks sent p
      → Told sinks sent p
  Tried-Told sinks sent (ok _, v) h = inl h
  Tried-Told sinks sent (err e, v) h = inr h

  -- What is told from a world with the sinks and the goroutines of another.
  Told-from :
      (sinks : List Sink) (sent : List (Delivery Sink)) (v : World Sink S)
      (p : Result (Unit {0}) × World Sink S)
      → v.sent ≡ sent
      → v.state.sinks ≡ sinks
      → Told v.state.sinks v.sent p
      → Told sinks sent p
  Told-from sinks sent v p e f h =
      subst (λ ds. Told sinks ds p) e (subst (λ ss. Told ss v.sent p) f h)

  pub after_call :
      {A : Type 0} (f : A → Api (World Sink S) (Unit {0}))
      (g : Error → Api (World Sink S) (Unit {0})) (sinks : List Sink) (sent : List (Delivery Sink))
      (p : Result A × World Sink S)
      → Calm sinks sent p
      → ((a : A) (v : World Sink S) → Told v.state.sinks v.sent (f a v))
      → ((e : Error) (v : World Sink S) → Told v.state.sinks v.sent (g e v))
      → Told sinks sent (on_result f g p)
  after_call f g sinks sent (ok a, v) h k l = Told-from sinks sent v (f a v) h.0 h.1 (k a v)
  after_call f g sinks sent (err e, v) h k l = Told-from sinks sent v (g e v) h.0 h.1 (l e v)

  pub raised : (e : Error) (v : World Sink S) → Told v.state.sinks v.sent (raise e v)
  raised e v = inr refl

  pub prefixed :
      {A : Type 0} (prefix : String) (sinks : List Sink) (sent : List (Delivery Sink))
      (p : Result A × World Sink S)
      → Calm sinks sent p
      → Calm sinks sent (on_result pure (λ e. raise (wrap prefix e)) p)
  prefixed prefix sinks sent (ok a, v) h = h
  prefixed prefix sinks sent (err e, v) h = h

  pub prefixed_Tried :
      (prefix : String) (sinks : List Sink) (sent : List (Delivery Sink))
      (p : Result (Unit {0}) × World Sink S)
      → Tried sinks sent p
      → Tried sinks sent (on_result pure (λ e. raise (wrap prefix e)) p)
  prefixed_Tried prefix sinks sent (ok a, v) h = h
  prefixed_Tried prefix sinks sent (err e, v) h = h

  applied :
      (event : DsnsEvent) (w : World Sink S) (p : Result (Unit {0}) × S)
      → event.source_ref ≡ source r req
      → p ≡ apply_content r.maps (render r.now w.state.zone) w.outside
      → Tried w.state.sinks w.sent
          (record_sent (on_result (λ _. pure (notify w.state.sinks event)) raise p) w)
  unfolding notify
  applied event w (ok _, t) a q = record {
    event = event;
    about = a;
    more = notify w.state.sinks event;
    added = refl;
    each = deliveries-sinks 0 event w.state.sinks;
    same = deliveries-event 0 event w.state.sinks;
    before = w.outside;
    wrote = sym (ap (λ x. x.0) q);
  }
  applied event w (err e, t) a q = refl

  pub apply_state-Tried :
      (event : DsnsEvent) (w : World Sink S)
      → event.source_ref ≡ source r req
      → Tried w.state.sinks w.sent (apply_state r (event ∷ []) w)
  unfolding apply_state
  apply_state-Tried event w a = applied event w _ a refl
