-- ===== src/Dns/State/Reachable.antt =====
-- The states of internal/dns/state.go that the three methods reach, in any order, and what holds
-- of them.
use seam_core.Prelude.{
  mem, String, ◌≡◌, refl, ap, sym, ◌∙◌, ◌≢◌, ◌⊎◌, inl, inr, true, false, List, [], ◌∷◌, map, none,
  arith, ◌==◌, eq_iff, eq_refl, eq_cases, Bool-cases, All, get,
}
use seam_core.Dns.Zone.{Record}
use seam_core.Dns.State.{
  DsnsState, new_dsns_state, set_sinks, key_of_record, remove_records, update_records,
  set_static_record,
}
use seam_core.Dns.State.Ownership.{
  IsKey, HasPlainType, record_at, latest, owned_by, IsFormed, record_at-remove_records,
  owned_by-remove_records, record_at-update_records, owned_by-update_records,
  record_at-set_static_record,
}

-- One call of a method; the lists are the keys of the static records so far.
pub data Step {Sink : Type 0} (ks : List String) (s : DsnsState Sink)
    : List String → DsnsState Sink → Type 0 where
  update :
      (owner : String) (rs : List Record)
      → All HasPlainType rs
      → Step ks s ks (update_records s owner rs)
  remove : (owner : String) → Step ks s ks (remove_records s owner)
  static : (r : Record) → Step ks s (key_of_record r ∷ ks) (set_static_record s r)

pub data Reach {Sink : Type 0} : List String → DsnsState Sink → Type 0 where
  start : (sinks : List Sink) → Reach [] (set_sinks new_dsns_state sinks)
  next : {ks js : List String} {s t : DsnsState Sink} → Reach ks s → Step ks s js t → Reach js t

pub latest-none :
    (k : String) (rs : List Record) → mem k (map key_of_record rs) ≡ false → latest k rs ≡ none
unfolding latest
latest-none k [] h = refl
latest-none k (r ∷ rs) h = ground (arith, latest-none k rs)

made-IsKey : (rs : List Record) → All HasPlainType rs → All IsKey (map key_of_record rs)
made-IsKey [] h = tt
made-IsKey (r ∷ rs) h =
    (record { rtype = r.rtype; name = r.name; plain = h.0; made = refl }, made-IsKey rs h.1)

module _ {Sink : Type 0} where
  -- Someone owns the key.
  abbrev pub IsOwned : DsnsState Sink → String → Type 0
  IsOwned s k = (owner : String) × (mem k (owned_by s owner) ≡ true)

  -- Each record of the zone is static or owned.
  abbrev pub IsAccounted : List String → DsnsState Sink → Type 0
  IsAccounted ks s = (k : String) → record_at s.zone k ≢ none → (mem k ks ≡ true) ⊎ IsOwned s k

  pub remove_records-IsFormed :
      (s : DsnsState Sink) (owner : String) → IsFormed s → IsFormed (remove_records s owner)
  remove_records-IsFormed s owner h o =
      rw (owned_by-remove_records s owner o)
        (elim (Bool-cases (owner == o)) [ inl e ↦ rw e tt | inr e ↦ rw e (h o) ])

  pub update_records-IsFormed :
      (s : DsnsState Sink) (owner : String) (rs : List Record)
      → All HasPlainType rs
      → IsFormed s
      → IsFormed (update_records s owner rs)
  update_records-IsFormed s owner rs p h o =
      rw (owned_by-update_records s owner rs o)
        (elim (Bool-cases (owner == o)) [ inl e ↦ rw e (made-IsKey rs p) | inr e ↦ rw e (h o) ])

  set_static_record-IsFormed :
      (s : DsnsState Sink) (r : Record) → IsFormed s → IsFormed (set_static_record s r)
  unfolding set_static_record owned_by
  set_static_record-IsFormed s r h o = h o

  -- An owner other than the one that is removed still owns the key.
  remove_records-IsOwned :
      (s : DsnsState Sink) (owner k : String)
      → mem k (owned_by s owner) ≡ false
      → IsOwned s k
      → IsOwned (remove_records s owner) k
  remove_records-IsOwned s owner k absent (o, m) = elim (eq_cases owner o) [
    | inl e ↦ cc (ap (λ x. mem k (owned_by s x)) e)
    | inr e ↦ (o, rw (owned_by-remove_records s owner o, e) m)
  ]

  remove_records-IsAccounted :
      (ks : List String) (s : DsnsState Sink) (owner : String)
      → IsFormed s
      → IsAccounted ks s
      → IsAccounted ks (remove_records s owner)
  remove_records-IsAccounted ks s owner f h k =
      rw (record_at-remove_records s owner k f) (elim (Bool-cases (mem k (owned_by s owner))) [
        | inl e ↦ rw e (λ n. absurd (n refl))
        | inr e ↦ rw e (λ n. elim (h k n) [
          | inl a ↦ inl a
          | inr b ↦ inr (remove_records-IsOwned s owner k e b)
        ])
      ])

  -- A key of the new records is owned afterwards; the others are as after the removal.
  update_records-IsAccounted :
      (ks : List String) (s : DsnsState Sink) (owner : String) (rs : List Record)
      → IsFormed s
      → IsAccounted ks s
      → IsAccounted ks (update_records s owner rs)
  update_records-IsAccounted ks s owner rs f h k n =
      elim (Bool-cases (mem k (map key_of_record rs))) [
        | inl e ↦ inr (owner, rw (owned_by-update_records s owner rs owner, eq_refl) e)
        | inr e ↦
            elim (remove_records-IsAccounted ks s owner f h k (λ z. n (update_elsewhere e z))) [
              | inl a ↦ inl a
              | inr b ↦ inr (update_owned e b)
            ]
      ]
    where
      update_elsewhere :
          mem k (map key_of_record rs) ≡ false
          → record_at (remove_records s owner).zone k ≡ none
          → record_at (update_records s owner rs).zone k ≡ none
      update_elsewhere e z =
          record_at-update_records s owner rs k f
          ∙ rw (latest-none k rs e) (sym (record_at-remove_records s owner k f) ∙ z)

      update_owned :
          mem k (map key_of_record rs) ≡ false
          → IsOwned (remove_records s owner) k
          → IsOwned (update_records s owner rs) k
      update_owned e (o, m) = elim (eq_cases owner o) [
        | inl q ↦
            absurd (ground (arith, ap (mem k) (owned_by-remove_records s owner o), eq_iff owner o))
        | inr q ↦ (
          o,
          rw (owned_by-update_records s owner rs o, q)
              (rw (owned_by-remove_records s owner o, q) at m),
        )
      ]

  -- Where the records of the owner and the keys of the static records lie in a reached state.
  pub record IsSound (ks : List String) (s : DsnsState Sink) : Type 0 where
    pub formed : IsFormed s
    pub accounted : IsAccounted ks s

  set_static_record-IsAccounted :
      (ks : List String) (s : DsnsState Sink) (r : Record)
      → IsAccounted ks s
      → IsAccounted (key_of_record r ∷ ks) (set_static_record s r)
  unfolding owned_by
  set_static_record-IsAccounted ks s r h k =
      rw (record_at-set_static_record s r k) (elim (Bool-cases (key_of_record r == k)) [
        | inl e ↦ rw e (λ n. inl refl)
        | inr e ↦ rw e (λ n. unfold set_static_record in h k n)
      ])

  Step-IsSound :
      {ks js : List String} {s t : DsnsState Sink} → Step ks s js t → IsSound ks s → IsSound js t
  Step-IsSound {ks} {s = s} (update owner rs p) h = record {
    formed = update_records-IsFormed s owner rs p h.formed;
    accounted = update_records-IsAccounted ks s owner rs h.formed h.accounted;
  }
  Step-IsSound {ks} {s = s} (remove owner) h = record {
    formed = remove_records-IsFormed s owner h.formed;
    accounted = remove_records-IsAccounted ks s owner h.formed h.accounted;
  }
  Step-IsSound {ks} {s = s} (static r) h = record {
    formed = set_static_record-IsFormed s r h.formed;
    accounted = set_static_record-IsAccounted ks s r h.accounted;
  }

  -- In every state that the methods reach with records of plain types, the owners hold well-formed
  -- keys only, and each record of the zone has a static key or a key that some owner holds: no
  -- record outlives its owners.
  pub Reach-IsSound : {ks : List String} {s : DsnsState Sink} → Reach ks s → IsSound ks s
  unfolding owned_by record_at get
  Reach-IsSound (start sinks) = record { formed = λ o. tt; accounted = λ k n. absurd (n refl) }
  Reach-IsSound (next r st) = Step-IsSound st (Reach-IsSound r)
