-- ===== src/Dns/Reconcile/Told.antt =====
-- What a whole reconcile of internal/controller/dsns_reconciler.go sends to the sinks.
use seam_core.Prelude.{
  String, ◌≡◌, refl, sym, ap, inl, inr, Bool, true, false, List, [], ◌∷◌, ◌==◌, Bool-cases,
  if◌then◌else◌, subst, ◌⊕◌,
}
use seam_core.Kube.Object.{ObjectKey, Unstructured}
use seam_core.Kube.Client.{
  Result, ok, err, is_not_found, wrap, pure, raise, on_result, within, ◌>>=◌,
}
use seam_core.Dns.Event.{DsnsEvent, Delivery}
use seam_core.Dns.Zone.{Record}
use seam_core.Dns.State.{
  DsnsState, set_static_record, remove_records, own_records, update_records, remove_owner_locked,
}
use seam_core.Dns.Derive.{derive_records}
use seam_core.Dns.Reconcile.{
  World, Reconciler, lift, loadbalancer, request_text, ingress_ip, contains_dsns_finalizer,
  remove_dsns_finalizer, add_dsns_finalizer, dsns_owner_id, deletion_event, update_event,
  apply_state, set_glue, refresh_ns_glue, reconcile_deleting, ensure_finalizer, write_records,
  reconcile_absent, reconcile_found, reconcile,
}
use seam_core.Dns.Reconcile.Announced.{
  source, Announced, Told, Tried, Calm, Tried-Told, after_call, raised, prefixed, prefixed_Tried,
  apply_state-Tried,
}

own_records-sinks :
    {Sink : Type 0} (s : DsnsState Sink) (owner : String) (rs : List Record)
    → (own_records s owner rs).sinks ≡ s.sinks
unfolding own_records
own_records-sinks s owner [] = refl
own_records-sinks s owner (r ∷ rs) = refl

module _ {Sink S : Type 0} (r : Reconciler S) (req : ObjectKey) where
  set_glue-Calm :
      (ip : String) (w : World Sink S) → Calm r req w.state.sinks w.sent (set_glue r ip w)
  unfolding set_glue set_static_record
  set_glue-Calm ip w = elim (Bool-cases (ip == "")) [
    | inl e ↦ rw e (refl, refl)
    | inr e ↦ rw e (refl, refl)
  ]

  written :
      (s : DsnsState Sink) (event : DsnsEvent) (w : World Sink S)
      → s.sinks ≡ w.state.sinks
      → event.source_ref ≡ source r req
      → Tried r req w.state.sinks w.sent (apply_state r (event ∷ []) (record w { state = s }))
  written s event w e a =
      subst (λ ss. Tried r req ss w.sent (apply_state r (event ∷ []) (record w { state = s }))) e
        (apply_state-Tried r req event (record w { state = s }) a)

  write_records-Tried :
      (obj : Unstructured) (w : World Sink S)
      → Tried r req w.state.sinks w.sent (write_records r req obj w)
  unfolding write_records update_records remove_owner_locked update_event
  write_records-Tried obj w =
      let rs = derive_records r.sha256_hex r.gvk.kind obj in
      let owner = dsns_owner_id r.gvk.kind req.namespace req.name in
      prefixed_Tried r req "apply zone to ConfigMap" w.state.sinks w.sent _ (
        written (update_records w.state owner rs) (update_event r.gvk req obj rs) w
          (own_records-sinks (remove_owner_locked w.state owner) owner rs) refl)

  -- The state without the records of the object is written.
  removed :
      (w : World Sink S)
      → let owner = dsns_owner_id r.gvk.kind req.namespace req.name in
        Tried r req w.state.sinks w.sent (
          apply_state r
            (deletion_event r.gvk req ∷ [])
            (record w { state = remove_records w.state owner }))
  unfolding remove_records remove_owner_locked deletion_event
  removed w =
      written (remove_records w.state (dsns_owner_id r.gvk.kind req.namespace req.name))
        (deletion_event r.gvk req) w refl refl

  -- A call of a client behind it changes nothing of that.
  later :
      (sinks : List Sink) (sent : List (Delivery Sink)) (v : World Sink S) (t : S)
      → Announced r req sinks sent v
      → Announced r req sinks sent (record v { outside = t })
  later sinks sent v t h = record {
    event = h.event;
    about = h.about;
    more = h.more;
    added = h.added;
    each = h.each;
    same = h.same;
    before = h.before;
    wrote = h.wrote;
  }

  lifted :
      (sinks : List Sink) (sent : List (Delivery Sink)) (v : World Sink S)
      (q : Result (Unit {0}) × S)
      → Announced r req sinks sent v
      → Told r req sinks sent (q.0, record v { outside = q.1 })
  lifted sinks sent v (ok _, t) h = inl (later sinks sent v t h)
  lifted sinks sent v (err e, t) h = inl (later sinks sent v t h)

  then_update :
      (obj : Unstructured) (sinks : List Sink) (sent : List (Delivery Sink))
      (p : Result (Unit {0}) × World Sink S)
      → Tried r req sinks sent p
      → Told r req sinks sent (on_result (λ _. lift (r.objects.update obj)) raise p)
  then_update obj sinks sent (err e, v) h = inr h
  then_update obj sinks sent (ok _, v) h = lifted sinks sent v (r.objects.update obj v.outside) h

  deleting-Told :
      (obj : Unstructured) (w : World Sink S) (t : S)
      → (r.objects.fetch (r.gvk, req) t).0 ≡ ok obj
      → obj.deleting ≡ true
      → Told r req w.state.sinks w.sent (reconcile_deleting r req obj w)
  unfolding reconcile_deleting
  deleting-Told obj w t f d = elim (Bool-cases (contains_dsns_finalizer obj)) [
    | inl e ↦ rw e (then_update (remove_dsns_finalizer obj) w.state.sinks w.sent _ (removed w))
    | inr e ↦
        rw e (inr (refl, record { obj = obj; at_read = t; read = f; deleting = d; released = e }))
  ]

  ensure_finalizer-Calm :
      (obj : Unstructured) (w : World Sink S)
      → Calm r req w.state.sinks w.sent (ensure_finalizer r req obj w)
  unfolding ensure_finalizer
  ensure_finalizer-Calm obj w = elim (Bool-cases (contains_dsns_finalizer obj)) [
    | inl e ↦ rw e (refl, refl)
    | inr e ↦ rw e (refetched (r.objects.update (add_dsns_finalizer obj) w.outside))
  ]
    where
      refetched :
          (q : Result (Unit {0}) × S)
          → Calm r req w.state.sinks w.sent (
              on_result
                (λ _. within "re-fetch after finalizer" (lift (r.objects.fetch (r.gvk, req))))
                raise
                (on_result pure
                  (λ e. raise (wrap ("add finalizer to " ⊕ request_text r.gvk req) e))
                  (q.0, record w { outside = q.1 })))
      refetched (err e, t) = (refl, refl)
      refetched (ok _, t) =
          prefixed r req "re-fetch after finalizer" w.state.sinks w.sent
            (lift (r.objects.fetch (r.gvk, req)) (record w { outside = t })) (refl, refl)

  branches :
      (obj : Unstructured) (w : World Sink S) (t : S) (deleting : Bool)
      → (r.objects.fetch (r.gvk, req) t).0 ≡ ok obj
      → obj.deleting ≡ deleting
      → Told r req w.state.sinks w.sent (
          (if deleting
              then reconcile_deleting r req obj
              else ensure_finalizer r req obj >>= write_records r req)
            w)
  branches obj w t true f d = deleting-Told obj w t f d
  branches obj w t false f d =
      after_call r req (write_records r req) raise w.state.sinks w.sent
        (ensure_finalizer r req obj w) (ensure_finalizer-Calm obj w)
        (λ o v. Tried-Told r req v.state.sinks v.sent _ (write_records-Tried o v)) (raised r req)

  found-Told :
      (obj : Unstructured) (w : World Sink S) (t : S)
      → (r.objects.fetch (r.gvk, req) t).0 ≡ ok obj
      → Told r req w.state.sinks w.sent (reconcile_found r req obj w)
  unfolding reconcile_found
  found-Told obj w t f = branches obj w t obj.deleting f refl

  absent-Told : (w : World Sink S) → Told r req w.state.sinks w.sent (reconcile_absent r req w)
  unfolding reconcile_absent
  absent-Told w = Tried-Told r req w.state.sinks w.sent _ (removed w)

  read-Told :
      (w : World Sink S) (q : Result Unstructured × S)
      → q ≡ r.objects.fetch (r.gvk, req) w.outside
      → Told r req w.state.sinks w.sent (
          on_result
            (reconcile_found r req)
            (λ e.
              if is_not_found e
              then reconcile_absent r req
              else raise (wrap ("get " ⊕ request_text r.gvk req) e))
            (q.0, record w { outside = q.1 }))
  read-Told w (ok obj, t) e =
      found-Told obj (record w { outside = t }) w.outside (sym (ap (λ x. x.0) e))
  read-Told w (err x, t) e = elim (Bool-cases (is_not_found x)) [
    | inl q ↦ rw q (absent-Told (record w { outside = t }))
    | inr q ↦ rw q (inr refl)
  ]

  refresh_ns_glue-Calm : (w : World Sink S) → Calm r req w.state.sinks w.sent (refresh_ns_glue r w)
  unfolding refresh_ns_glue
  refresh_ns_glue-Calm w = read (r.objects.fetch loadbalancer w.outside)
    where
      read :
          (q : Result Unstructured × S)
          → Calm r req w.state.sinks w.sent (
              on_result
                (λ svc. set_glue r (ingress_ip svc.ingress r.ns_glue_fallback_ip))
                (λ e. set_glue r r.ns_glue_fallback_ip)
                (q.0, record w { outside = q.1 }))
      read (ok svc, t) =
          set_glue-Calm (ingress_ip svc.ingress r.ns_glue_fallback_ip) (record w { outside = t })
      read (err e, t) = set_glue-Calm r.ns_glue_fallback_ip (record w { outside = t })

  -- A reconcile of DNS records sends nothing, or it starts one goroutine for each sink of the
  -- state, in their order and with one event about the object of the request, after a write of the
  -- zone, as it then stands, that succeeded. Where the reconcile ends without an error, it has sent
  -- them, unless the object was read as one that is being deleted and has no finalizer of DSNS.
  pub reconcile-Told : (w : World Sink S) → Told r req w.state.sinks w.sent (reconcile r req w)
  unfolding reconcile
  reconcile-Told w =
      after_call r req _ raise w.state.sinks w.sent (refresh_ns_glue r w) (refresh_ns_glue-Calm w)
        (λ _ v. read-Told v (r.objects.fetch (r.gvk, req) v.outside) refl) (raised r req)
