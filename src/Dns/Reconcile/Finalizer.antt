-- ===== src/Dns/Reconcile/Finalizer.antt =====
-- What internal/controller/dsns_reconciler.go does to the objects: the finalizer of DSNS.
use seam_core.Prelude.{
  none, Bool-cases, String, ◌≡◌, refl, sym, ◌∙◌, ◌≢◌, ◌⊎◌, inl, inr, Bool, false, not, List, [],
  ◌∷◌, Option, some, arith, any, select, ◌==◌, subst, mem, ap, true, eq_iff,
}
use seam_core.Kube.Object.{ObjectKey, Unstructured, key_of}
use seam_core.Kube.Client.{Result, ok, err, pure, raise, on_result}
use seam_core.Kube.Store.{IsStore}
use seam_core.Kube.Deletion.{is_empty, left_by-removed, left_by-present, Updated, IsObjectStore}
use seam_core.Kube.Stable.{StableClient}
use seam_core.Dns.Event.{DsnsEvent, Delivery}
use seam_core.Dns.Zone.{render}
use seam_core.Dns.State.{DsnsState, remove_records, apply}
use seam_core.Dns.Writer.{ConfigMap, key_of_map, apply_content}
use seam_core.Dns.Writer.Refinement.{Holds, primary}
use seam_core.Dns.Writer.Apart.{apply_content-Stable}
use seam_core.Dns.Reconcile.{
  World, Reconciler, KindKey, lift, record_sent, apply_state, dsns_owner_id, dsns_finalizer,
  contains_dsns_finalizer, remove_dsns_finalizer, reconcile_deleting, deletion_event,
}
use seam_core.Dns.Reconcile.Served.{Served, apply_state-Served}

-- The finalizer is gone once it is removed, and the others are there.
any-select : (p : String → Bool) (xs : List String) → any p (select (λ x. not (p x)) xs) ≡ false
any-select p [] = refl
any-select p (x ∷ xs) = ground (arith, any-select p xs)

mem-remove_dsns_finalizer :
    (obj : Unstructured) → mem dsns_finalizer (remove_dsns_finalizer obj).finalizers ≡ false
unfolding remove_dsns_finalizer
mem-remove_dsns_finalizer obj = any-select (λ f. f == dsns_finalizer) obj.finalizers

mem-select_other :
    (f g : String) (xs : List String)
    → (f == g) ≡ false
    → mem f (select (λ x. not (x == g)) xs) ≡ mem f xs
mem-select_other f g [] n = refl
mem-select_other f g (x ∷ xs) n =
    ground (arith, mem-select_other f g xs n, eq_iff x g, eq_iff x f, eq_iff f g)

mem-remove_dsns_finalizer_other :
    (obj : Unstructured) (f : String)
    → (f == dsns_finalizer) ≡ false
    → mem f (remove_dsns_finalizer obj).finalizers ≡ mem f obj.finalizers
unfolding remove_dsns_finalizer
mem-remove_dsns_finalizer_other obj f n = mem-select_other f dsns_finalizer obj.finalizers n

deleting-remove_dsns_finalizer :
    (obj : Unstructured) → (remove_dsns_finalizer obj).deleting ≡ obj.deleting
unfolding remove_dsns_finalizer
deleting-remove_dsns_finalizer obj = refl

abbrev pub object_key : Unstructured → KindKey
object_key u = (u.gvk, key_of u)

module _ {S : Type 0} (maps : S → ObjectKey → Option ConfigMap)
    (objects : S → KindKey → Option Unstructured) (r : Reconciler S) where
  -- Two servers in one: the calls for ConfigMaps leave the objects, and the updates of objects leave
  -- the ConfigMaps.
  pub record IsApart : Type 0 where
    pub map_store : IsStore maps key_of_map r.maps
    pub object_store : IsObjectStore objects object_key r.objects
    pub map_calls : (s : S) → StableClient (λ t. (j : KindKey) → objects t j ≡ objects s j) r.maps
    pub updates :
        (v : Unstructured) (s : S) (j : ObjectKey) → maps (r.objects.update v s).1 j ≡ maps s j

  abbrev pub Unchanged : S → S → Type 0
  Unchanged s t = (j : KindKey) → objects t j ≡ objects s j

  -- The finalizer is released, with the records gone from the state and from the ConfigMap: the
  -- object at the key is gone if it had no other finalizer, and otherwise it is there without this
  -- one. No other object has changed.
  pub record Released {Sink : Type 0} (k : KindKey) (obj : Unstructured) (s : DsnsState Sink)
      (before : S) (w : World Sink S) : Type 0 where
    pub state : w.state ≡ s
    pub shown : Holds maps primary (render r.now w.state.zone) w.outside
    pub gone : is_empty (remove_dsns_finalizer obj).finalizers ≡ true → objects w.outside k ≡ none
    pub stored :
        is_empty (remove_dsns_finalizer obj).finalizers ≡ false
        → objects w.outside k ≡ some (remove_dsns_finalizer obj)
    pub free : mem dsns_finalizer (remove_dsns_finalizer obj).finalizers ≡ false
    pub kept :
        (f : String)
        → (f == dsns_finalizer) ≡ false
        → mem f (remove_dsns_finalizer obj).finalizers ≡ mem f obj.finalizers
    pub others : (j : KindKey) → j ≢ k → objects w.outside j ≡ objects before j

  -- The end of a reconcile of an object that is being deleted: on success the finalizer is
  -- released, if it was there; an error changes no object.
  abbrev pub Ended :
      {Sink : Type 0}
      → KindKey
      → Unstructured
      → DsnsState Sink
      → World Sink S
      → Result (Unit {0}) × World Sink S
      → Type 0
  Ended k obj s w (ok _, v) =
      ((mem dsns_finalizer obj.finalizers ≡ true) × Released k obj s w.outside v)
      ⊎ ((mem dsns_finalizer obj.finalizers ≡ false)
          × (v.state ≡ w.state)
          × Unchanged w.outside v.outside)
  Ended k obj s w (err _, v) = Unchanged w.outside v.outside

  update-Updated :
      (apart : IsApart) (k : KindKey) (obj : Unstructured) (t : S)
      → object_key obj ≡ k
      → objects t k ≡ some obj
      → Updated objects k
          (remove_dsns_finalizer obj)
          t
          (r.objects.update (remove_dsns_finalizer obj) t)
  unfolding remove_dsns_finalizer
  update-Updated apart k obj t q e =
      subst
        (λ i.
          Updated objects i (remove_dsns_finalizer obj) t
            (r.objects.update (remove_dsns_finalizer obj) t))
        q (apart.object_store.updates obj (remove_dsns_finalizer obj) t (ap (objects t) q ∙ e) refl)

  module _ {Sink : Type 0} (apart : IsApart) where
    sent_outside :
        (deliveries : List (Delivery Sink)) (w : World Sink S) (p : Result (Unit {0}) × S)
        → (record_sent (on_result (λ _. pure deliveries) raise p) w).1.outside ≡ p.1
    sent_outside deliveries w (ok _, t) = refl
    sent_outside deliveries w (err e, t) = refl

    -- The write of the zone leaves the objects.
    pub apply_state_objects :
        (events : List DsnsEvent) (w : World Sink S)
        → Unchanged w.outside (apply_state r events w).1.outside
    unfolding apply_state apply
    apply_state_objects events w =
        subst (Unchanged w.outside)
          (sym (sent_outside _ w (apply_content r.maps (render r.now w.state.zone) w.outside)))
          ((apply_content-Stable r.maps (apart.map_calls w.outside) _).keeps w.outside (λ j. refl))

    updated :
        (k : KindKey) (obj : Unstructured) (s : DsnsState Sink) (before v : World Sink S)
        → obj.deleting ≡ true
        → mem dsns_finalizer obj.finalizers ≡ true
        → v.state ≡ s
        → Holds maps primary (render r.now v.state.zone) v.outside
        → Unchanged before.outside v.outside
        → (p : Result (Unit {0}) × S) → ((j : ObjectKey) → maps p.1 j ≡ maps v.outside j)
        → Updated objects k (remove_dsns_finalizer obj) v.outside p
        → Ended k obj s before (p.0, record v { outside = p.1 })
    updated k obj s before v d f e (c, at_primary, held) u (ok _, t) q (stored, others) = inl (
      f,
      record {
        state = e;
        shown = (c, q primary ∙ at_primary, held);
        gone = λ n.
            stored
            ∙ left_by-removed (remove_dsns_finalizer obj) (deleting-remove_dsns_finalizer obj ∙ d)
                n;
        stored = λ n. stored ∙ left_by-present (remove_dsns_finalizer obj) (inr n);
        free = mem-remove_dsns_finalizer obj;
        kept = mem-remove_dsns_finalizer_other obj;
        others = λ j n. others j n ∙ u j;
      },
    )
    updated k obj s before v d f e h u (err x, t) q same = λ j. same j ∙ u j

    then_updated :
        (k : KindKey) (obj : Unstructured) (s : DsnsState Sink) (before : World Sink S)
        → (p : Result (Unit {0}) × World Sink S) → Served maps r s p
        → Unchanged before.outside p.1.outside
        → object_key obj ≡ k
        → objects before.outside k ≡ some obj
        → obj.deleting ≡ true
        → mem dsns_finalizer obj.finalizers ≡ true
        → Ended k obj s before
            (on_result (λ _. lift (r.objects.update (remove_dsns_finalizer obj))) raise p)
    then_updated k obj s before (ok _, v) h u q e d f =
        updated k obj s before v d f h.state h.shown u
          (r.objects.update (remove_dsns_finalizer obj) v.outside)
          (apart.updates (remove_dsns_finalizer obj) v.outside)
          (update-Updated apart k obj v.outside q (u k ∙ e))
    then_updated k obj s before (err e, v) h u q i d f = u

    -- A reconcile of an object that is stored and is being deleted: where it ends without an error,
    -- its records are gone from the state, the primary ConfigMap holds the text of that zone, and the
    -- object is gone, or is there without the finalizer of DSNS and with the other ones if it has
    -- any, unless it had not the finalizer of DSNS and nothing changed. Where it ends with an error,
    -- no object has changed; no other object changes in any case. It is over stores that nobody else
    -- writes, with calls for ConfigMaps and for objects that leave each other's store.
    pub reconcile_deleting-Released :
        (req : ObjectKey) (obj : Unstructured) (w : World Sink S)
        → objects w.outside (r.gvk, req) ≡ some obj
        → obj.deleting ≡ true
        → Ended
            (r.gvk, req)
            obj
            (remove_records w.state (dsns_owner_id r.gvk.kind req.namespace req.name))
            w
            (reconcile_deleting r req obj w)
    unfolding reconcile_deleting contains_dsns_finalizer
    reconcile_deleting-Released req obj w e d =
        let s = remove_records w.state (dsns_owner_id r.gvk.kind req.namespace req.name) in
        let events = deletion_event r.gvk req ∷ [] in
        elim (Bool-cases (mem dsns_finalizer obj.finalizers)) [
          | inr f ↦ rw f (inr (f, refl, λ j. refl))
          | inl f ↦ rw f (
              then_updated (r.gvk, req) obj s w (apply_state r events (record w { state = s }))
                (apply_state-Served maps r apart.map_store apart.updates events
                  (record w { state = s }))
                (apply_state_objects events (record w { state = s }))
                (apart.object_store.stores.keyed w.outside (r.gvk, req) obj e) e d f)
        ]
