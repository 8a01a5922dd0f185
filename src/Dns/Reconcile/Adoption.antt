-- ===== src/Dns/Reconcile/Adoption.antt =====
-- The first reconcile of an object by internal/controller/dsns_reconciler.go: it adds the finalizer.
use mathlib.Core.Option.{some-injective}
use seam_core.Prelude.{
  ap, inl, String, ◌≡◌, refl, sym, ◌∙◌, Bool, true, false, [], ◌∷◌, Option, some, arith,
  if◌then◌else◌, any-append, ◌==◌, eq_refl, subst,
}
use seam_core.Kube.Object.{ObjectKey, Unstructured}
use seam_core.Kube.Client.{wrap, Result, ok, err, pure, raise, on_result, within, ◌>>=◌}
use seam_core.Kube.Store.{Wrote, ReadAs}
use seam_core.Kube.Deletion.{Updated, Updated-Wrote}
use seam_core.Dns.Zone.{render}
use seam_core.Dns.State.{DsnsState, update_records}
use seam_core.Dns.Writer.{ConfigMap}
use seam_core.Dns.Writer.Refinement.{Holds, primary}
use seam_core.Dns.Derive.{derive_records}
use seam_core.Dns.Reconcile.{
  World, Reconciler, KindKey, lift, apply_state, dsns_owner_id, dsns_finalizer,
  contains_dsns_finalizer, add_dsns_finalizer, reconcile_deleting, ensure_finalizer, write_records,
  reconcile_found, update_event,
}
use seam_core.Dns.Reconcile.Served.{Served, write_records-Served}
use seam_core.Dns.Reconcile.Finalizer.{object_key, IsApart, Unchanged, apply_state_objects}

-- The finalizer is there once it is added.
contains_dsns_finalizer-add_dsns_finalizer :
    (obj : Unstructured) → contains_dsns_finalizer (add_dsns_finalizer obj) ≡ true
unfolding contains_dsns_finalizer add_dsns_finalizer
contains_dsns_finalizer-add_dsns_finalizer obj = ground (
  arith,
  any-append (λ f. f == dsns_finalizer) obj.finalizers (dsns_finalizer ∷ []),
  eq_refl dsns_finalizer,
)

module _ {S : Type 0} (maps : S → ObjectKey → Option ConfigMap)
    (objects : S → KindKey → Option Unstructured) (r : Reconciler S)
    (apart : IsApart maps objects r) where
  add-Wrote :
      (k : KindKey) (obj : Unstructured) (t : S)
      → object_key obj ≡ k
      → objects t k ≡ some obj
      → obj.deleting ≡ false
      → Wrote objects k (add_dsns_finalizer obj) t (r.objects.update (add_dsns_finalizer obj) t)
  unfolding add_dsns_finalizer
  add-Wrote k obj t q e d =
      Updated-Wrote objects k (add_dsns_finalizer obj) t
        (r.objects.update (add_dsns_finalizer obj) t) (inl d)
        (subst
          (λ i.
            Updated objects i (add_dsns_finalizer obj) t
              (r.objects.update (add_dsns_finalizer obj) t))
          q (apart.object_store.updates obj (add_dsns_finalizer obj) t (ap (objects t) q ∙ e) refl))

module _ {Sink S : Type 0} (maps : S → ObjectKey → Option ConfigMap)
    (objects : S → KindKey → Option Unstructured) (r : Reconciler S)
    (apart : IsApart maps objects r) where
  -- The object with the finalizer is stored, and the state is the one from before.
  abbrev Added :
      KindKey → Unstructured → DsnsState Sink → Result Unstructured × World Sink S → Type 0
  Added key obj s (ok v, w) =
      (v ≡ add_dsns_finalizer obj)
      × (w.state ≡ s)
      × (objects w.outside key ≡ some (add_dsns_finalizer obj))
  Added key obj s (err e, w) = Unit

  refetched :
      (m : String) (key : KindKey) (obj : Unstructured) (w : World Sink S) (t : S)
      → (p : Result Unstructured × S) → objects t key ≡ some (add_dsns_finalizer obj)
      → ReadAs objects key t p
      → Added key obj w.state
          (on_result pure (λ e. raise (wrap m e)) (p.0, record w { outside = p.1 }))
  refetched m key obj w t (ok v, u) e (read, same) =
      (some-injective v (add_dsns_finalizer obj) (sym read ∙ e), refl, same key ∙ e)
  refetched m key obj w t (err x, u) e h = tt

  then_refetched :
      (m n : String) (key : KindKey) (obj : Unstructured) (w : World Sink S)
      → (p : Result (Unit {0}) × S) → Wrote objects key (add_dsns_finalizer obj) w.outside p
      → Added key obj w.state (
          on_result
            (λ _. within n (lift (r.objects.fetch key)))
            raise
            (on_result pure (λ e. raise (wrap m e)) (p.0, record w { outside = p.1 })))
  then_refetched m n key obj w (ok _, t) h =
      refetched n key obj w t (r.objects.fetch key t) h.0 (apart.object_store.stores.reads key t)
  then_refetched m n key obj w (err e, t) h = tt

  ensure_finalizer-Added :
      (req : ObjectKey) (obj : Unstructured) (w : World Sink S)
      → objects w.outside (r.gvk, req) ≡ some obj
      → obj.deleting ≡ false
      → contains_dsns_finalizer obj ≡ false
      → Added (r.gvk, req) obj w.state (ensure_finalizer r req obj w)
  unfolding ensure_finalizer
  ensure_finalizer-Added req obj w e d f = rw f (
      then_refetched _ _ (r.gvk, req) obj w (r.objects.update (add_dsns_finalizer obj) w.outside)
        (add-Wrote maps objects r apart (r.gvk, req) obj w.outside
          (apart.object_store.stores.keyed w.outside (r.gvk, req) obj e) e d))

  -- On success the state is as given, the ConfigMap shows it, and the object has the finalizer.
  abbrev pub Adopted :
      KindKey → Unstructured → DsnsState Sink → Result (Unit {0}) × World Sink S → Type 0
  Adopted key obj s (ok _, w) =
      (w.state ≡ s)
      × Holds maps primary (render r.now w.state.zone) w.outside
      × (objects w.outside key ≡ some (add_dsns_finalizer obj))
      × (contains_dsns_finalizer (add_dsns_finalizer obj) ≡ true)
  Adopted key obj s (err e, w) = Unit

  concluded :
      (key : KindKey) (obj : Unstructured) (s : DsnsState Sink)
      → (q : Result (Unit {0}) × World Sink S) → Served maps r s q
      → objects q.1.outside key ≡ some (add_dsns_finalizer obj)
      → Adopted key obj s q
  concluded key obj s (ok _, w) h e =
      (h.state, h.shown, e, contains_dsns_finalizer-add_dsns_finalizer obj)
  concluded key obj s (err x, w) h e = tt

  prefixed_outside :
      (m : String) (p : Result (Unit {0}) × World Sink S)
      → (on_result pure (λ e. raise (wrap m e)) p).1.outside ≡ p.1.outside
  prefixed_outside m (ok _, w) = refl
  prefixed_outside m (err e, w) = refl

  write_records_objects :
      (req : ObjectKey) (v : Unstructured) (w : World Sink S)
      → Unchanged maps objects r w.outside (write_records r req v w).1.outside
  unfolding write_records
  write_records_objects req v w =
      let rs = derive_records r.sha256_hex r.gvk.kind v in
      let s = update_records w.state (dsns_owner_id r.gvk.kind req.namespace req.name) rs in
      let events = update_event r.gvk req v rs ∷ [] in
      subst (Unchanged maps objects r w.outside)
        (sym (prefixed_outside _ (apply_state r events (record w { state = s }))))
        (apply_state_objects maps objects r apart events (record w { state = s }))

  -- The state with the records that are derived from the object with its finalizer.
  abbrev pub adopted_state : ObjectKey → Unstructured → DsnsState Sink → DsnsState Sink
  adopted_state req obj s =
      update_records s (dsns_owner_id r.gvk.kind req.namespace req.name)
        (derive_records r.sha256_hex r.gvk.kind (add_dsns_finalizer obj))

  written :
      (req : ObjectKey) (obj : Unstructured) (s : DsnsState Sink)
      → (p : Result Unstructured × World Sink S) → Added (r.gvk, req) obj s p
      → Adopted (r.gvk, req) obj (adopted_state req obj s) (on_result (write_records r req) raise p)
  written req obj s (err e, w) h = tt
  written req obj s (ok v, w) (same, state, stored) =
      concluded (r.gvk, req) obj (adopted_state req obj s) (write_records r req v w)
        (subst
          (λ (u : Unstructured). Served maps r (adopted_state req obj s) (write_records r req u w))
          (sym same)
          (subst
            (λ (q : DsnsState Sink).
              Served maps r (adopted_state req obj q)
                (write_records r req (add_dsns_finalizer obj) w))
            state
            (write_records-Served maps r apart.map_store apart.updates req (add_dsns_finalizer obj)
              w)))
        (write_records_objects req v w (r.gvk, req) ∙ stored)

  -- A reconcile of an object that is stored without the finalizer and is not being deleted, if it
  -- succeeds, leaves the object stored with the finalizer, the state with the records that are
  -- derived from it, and the primary ConfigMap with the text of that zone. It is over stores that
  -- nobody else writes, with calls for ConfigMaps and for objects that leave each other's store.
  pub reconcile_found-Adopted :
      (req : ObjectKey) (obj : Unstructured) (w : World Sink S)
      → objects w.outside (r.gvk, req) ≡ some obj
      → obj.deleting ≡ false
      → contains_dsns_finalizer obj ≡ false
      → Adopted (r.gvk, req) obj (adopted_state req obj w.state) (reconcile_found r req obj w)
  unfolding reconcile_found
  reconcile_found-Adopted req obj w e d f =
      subst
        (λ (b : Bool).
          Adopted (r.gvk, req) obj (adopted_state req obj w.state)
            ((if b
                then reconcile_deleting r req obj
                else ensure_finalizer r req obj >>= write_records r req)
              w))
        (sym d)
        (written req obj w.state (ensure_finalizer r req obj w)
          (ensure_finalizer-Added req obj w e d f))
