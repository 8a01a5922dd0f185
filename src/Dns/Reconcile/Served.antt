-- ===== src/Dns/Reconcile/Served.antt =====
-- What one run of the reconciler of internal/controller/dsns_reconciler.go publishes.
use seam_core.Prelude.{
  String, ◌≡◌, refl, ◌∙◌, Bool, true, false, List, [], ◌∷◌, Option, if◌then◌else◌,
}
use seam_core.Kube.Object.{ObjectKey, Unstructured}
use seam_core.Kube.Client.{Result, ok, err, wrap, pure, raise, on_result, ◌>>=◌}
use seam_core.Kube.Store.{IsStore}
use seam_core.Dns.Event.{DsnsEvent, Delivery}
use seam_core.Dns.Zone.{render}
use seam_core.Dns.State.{DsnsState, remove_records, update_records, apply}
use seam_core.Dns.Writer.{ConfigMap, key_of_map, apply_content}
use seam_core.Dns.Writer.Refinement.{Holds, Published, primary, apply_content-Published}
use seam_core.Dns.Derive.{derive_records}
use seam_core.Dns.Reconcile.{
  World, Reconciler, lift, record_sent, apply_state, dsns_owner_id, contains_dsns_finalizer,
  remove_dsns_finalizer, reconcile_deleting, ensure_finalizer, write_records, reconcile_found,
  deletion_event, update_event,
}

module _ {Sink S : Type 0} (view : S → ObjectKey → Option ConfigMap) (r : Reconciler S) where
  -- On success the primary ConfigMap holds the text of the zone.
  abbrev pub Shows : Result (Unit {0}) × World Sink S → Type 0
  Shows (ok _, w) = Holds view primary (render r.now w.state.zone) w.outside
  Shows (err _, w) = Unit

  -- The state is as given, whatever the result, and on success the primary ConfigMap shows it.
  pub record Served (s : DsnsState Sink) (p : Result (Unit {0}) × World Sink S) : Type 0 where
    pub state : p.1.state ≡ s
    pub shown : Shows p

  -- The state that one run leaves for an object that is there.
  abbrev pub next_state : ObjectKey → Unstructured → DsnsState Sink → DsnsState Sink
  next_state req obj s =
      let owner = dsns_owner_id r.gvk.kind req.namespace req.name in
      if obj.deleting
      then remove_records s owner
      else update_records s owner (derive_records r.sha256_hex r.gvk.kind obj)

  module _ (store : IsStore view key_of_map r.maps)
      (quiet : (v : Unstructured) (s : S) (j : ObjectKey)
        → view (r.objects.update v s).1 j ≡ view s j) where
    sent :
        (w : World Sink S) (deliveries : List (Delivery Sink)) (p : Result (Unit {0}) × S)
        → Published view (render r.now w.state.zone) w.outside p
        → Served w.state (record_sent (on_result (λ _. pure deliveries) raise p) w)
    sent w deliveries (ok _, t) h = record { state = refl; shown = h.0 }
    sent w deliveries (err e, t) h = record { state = refl; shown = tt }

    pub apply_state-Served :
        (events : List DsnsEvent) (w : World Sink S) → Served w.state (apply_state r events w)
    unfolding apply_state apply
    apply_state-Served events w =
        sent w _ (apply_content r.maps (render r.now w.state.zone) w.outside)
          (apply_content-Published view r.maps store (render r.now w.state.zone) w.outside)

    prefixed :
        (prefix : String) (s : DsnsState Sink) (p : Result (Unit {0}) × World Sink S)
        → Served s p
        → Served s (on_result pure (λ e. raise (wrap prefix e)) p)
    prefixed prefix s (ok _, w) h = h
    prefixed prefix s (err e, w) h = record { state = h.state; shown = tt }

    released :
        (obj : Unstructured) (s : DsnsState Sink) (w : World Sink S) (p : Result (Unit {0}) × S)
        → w.state ≡ s
        → Holds view primary (render r.now w.state.zone) w.outside
        → ((j : ObjectKey) → view p.1 j ≡ view w.outside j)
        → Served s (p.0, record w { outside = p.1 })
    released obj s w (ok _, t) e (c, at_primary, held) q = record {
      state = e;
      shown = (c, q primary ∙ at_primary, held);
    }
    released obj s w (err x, t) e h q = record { state = e; shown = tt }

    then_released :
        (obj : Unstructured) (s : DsnsState Sink) (p : Result (Unit {0}) × World Sink S)
        → Served s p
        → Served s (on_result (λ _. lift (r.objects.update obj)) raise p)
    then_released obj s (ok _, w) h =
        released obj s w (r.objects.update obj w.outside) h.state h.shown (quiet obj w.outside)
    then_released obj s (err e, w) h = record { state = h.state; shown = tt }

    deleting-Served :
        (req : ObjectKey) (obj : Unstructured) (w : World Sink S)
        → contains_dsns_finalizer obj ≡ true
        → Served
            (remove_records w.state (dsns_owner_id r.gvk.kind req.namespace req.name))
            (reconcile_deleting r req obj w)
    unfolding reconcile_deleting
    deleting-Served req obj w f =
        let s = remove_records w.state (dsns_owner_id r.gvk.kind req.namespace req.name) in
        rw f (
          then_released (remove_dsns_finalizer obj) s
            (apply_state r (deletion_event r.gvk req ∷ []) (record w { state = s }))
            (apply_state-Served (deletion_event r.gvk req ∷ []) (record w { state = s })))

    pub write_records-Served :
        (req : ObjectKey) (obj : Unstructured) (w : World Sink S)
        → let rs = derive_records r.sha256_hex r.gvk.kind obj in
          Served
            (update_records w.state (dsns_owner_id r.gvk.kind req.namespace req.name) rs)
            (write_records r req obj w)
    unfolding write_records
    write_records-Served req obj w =
        let rs = derive_records r.sha256_hex r.gvk.kind obj in
        let s = update_records w.state (dsns_owner_id r.gvk.kind req.namespace req.name) rs in
        prefixed "apply zone to ConfigMap" s
          (apply_state r (update_event r.gvk req obj rs ∷ []) (record w { state = s }))
          (apply_state-Served (update_event r.gvk req obj rs ∷ []) (record w { state = s }))

    ensure_finalizer-pure :
        (req : ObjectKey) (obj : Unstructured) (w : World Sink S)
        → contains_dsns_finalizer obj ≡ true
        → ensure_finalizer r req obj w ≡ (ok obj, w)
    unfolding ensure_finalizer
    ensure_finalizer-pure req obj w f = rw f refl

    branches :
        (req : ObjectKey) (obj : Unstructured) (w : World Sink S) (deleting : Bool)
        → contains_dsns_finalizer obj ≡ true
        → let owner = dsns_owner_id r.gvk.kind req.namespace req.name in
          Served
            (if deleting
              then remove_records w.state owner
              else update_records w.state owner (derive_records r.sha256_hex r.gvk.kind obj))
            ((if deleting
                then reconcile_deleting r req obj
                else ensure_finalizer r req obj >>= write_records r req)
              w)
    branches req obj w true f = deleting-Served req obj w f
    branches req obj w false f =
        rw (ensure_finalizer-pure req obj w f) (write_records-Served req obj w)

    -- Over a store of ConfigMaps that nobody else writes and that the updates of objects leave as
    -- it is, for an object with the finalizer of DSNS the state becomes the one without its
    -- records if it is being deleted, and otherwise the one with the records derived from it,
    -- whatever the result; on success the primary ConfigMap holds the text of that zone.
    pub reconcile_found-Served :
        (req : ObjectKey) (obj : Unstructured) (w : World Sink S)
        → contains_dsns_finalizer obj ≡ true
        → Served (next_state req obj w.state) (reconcile_found r req obj w)
    unfolding reconcile_found
    reconcile_found-Served req obj w f = branches req obj w obj.deleting f
