-- ===== src/Dns/State/Sharing.antt =====
-- Records of several owners in internal/dns/state.go: what keeps them apart, and what is lost where
-- two owners write one key.
use seam_core.Prelude.{
  mem, String, ◌≡◌, refl, sym, ap, ◌∙◌, ◌≢◌, inl, inr, true, false, List, [], ◌∷◌, map, none, some,
  arith, ◌==◌, eq_iff, eq_refl, eq_cases, eq_of_ne, Bool-cases, All,
}
use seam_core.Dns.Zone.{Record, with_ttl}
use seam_core.Dns.State.{DsnsState, key_of_record, remove_records, update_records}
use seam_core.Dns.State.Ownership.{
  HasPlainType, record_at, latest, owned_by, IsFormed, record_at-remove_records,
  owned_by-remove_records, record_at-update_records, owned_by-update_records,
}
use seam_core.Dns.State.Reachable.{remove_records-IsFormed, update_records-IsFormed, latest-none}

latest-some :
    (k : String) (rs : List Record)
    → mem k (map key_of_record rs) ≡ true
    → (r : Record) × (latest k rs ≡ some r)
unfolding latest
latest-some k [] h = cc
latest-some k (r ∷ rs) h = elim (Bool-cases (mem k (map key_of_record rs))) [
  | inl e ↦ let (r', p) = latest-some k rs e in (r', rw (p, latest))
  | inr e ↦ (with_ttl r, rw (latest-none k rs e, latest) (ground arith))
]

module _ {Sink : Type 0} where
  -- No key has two owners, and each owned key has its record in the zone.
  pub record IsConsistent (s : DsnsState Sink) : Type 0 where
    pub formed : IsFormed s
    pub exclusive :
        (o p k : String) → mem k (owned_by s o) ≡ true → mem k (owned_by s p) ≡ true → o ≡ p
    pub served :
        (o k : String) → mem k (owned_by s o) ≡ true → (r : Record) × (record_at s.zone k ≡ some r)

  -- No other owner holds a key of the records.
  abbrev pub Avoids : DsnsState Sink → String → List Record → Type 0
  Avoids s owner rs =
      (o k : String)
      → owner ≢ o
      → mem k (owned_by s o) ≡ true
      → mem k (map key_of_record rs) ≡ false

  -- An owner's update leaves the records of every other owner as they are, if no key is shared.
  pub update_elsewhere :
      (s : DsnsState Sink) (owner o k : String) (rs : List Record)
      → IsConsistent s
      → Avoids s owner rs
      → owner ≢ o
      → mem k (owned_by s o) ≡ true
      → (record_at (update_records s owner rs).zone k ≡ record_at s.zone k)
        × (record_at (remove_records s owner).zone k ≡ record_at s.zone k)
  update_elsewhere s owner o k rs c a d m = (
    record_at-update_records s owner rs k c.formed ∙ rw (latest-none k rs (a o k d m), absent),
    record_at-remove_records s owner k c.formed ∙ rw absent,
  )
    where
      absent : mem k (owned_by s owner) ≡ false
      absent = elim (Bool-cases (mem k (owned_by s owner))) [
        | inl e ↦ absurd (d (c.exclusive owner o k e m))
        | inr e ↦ e
      ]

  -- `RemoveRecords` keeps the owners apart and the zone complete.
  pub remove_records-IsConsistent :
      (s : DsnsState Sink) (owner : String) → IsConsistent s → IsConsistent (remove_records s owner)
  remove_records-IsConsistent s owner c = record {
    formed = remove_records-IsFormed s owner c.formed;
    exclusive = λ o p k m n. c.exclusive o p k (still o k m) (still p k n);
    served = λ o k m. kept o k m (c.served o k (still o k m));
  }
    where
      still :
          (o k : String)
          → mem k (owned_by (remove_records s owner) o) ≡ true
          → mem k (owned_by s o) ≡ true
      still o k m = ground (arith, ap (mem k) (owned_by-remove_records s owner o))

      other : (o k : String) → mem k (owned_by (remove_records s owner) o) ≡ true → owner ≢ o
      other o k m e = ground (arith, ap (mem k) (owned_by-remove_records s owner o), eq_iff owner o)

      kept :
          (o k : String)
          → mem k (owned_by (remove_records s owner) o) ≡ true
          → (r : Record) × (record_at s.zone k ≡ some r)
          → (r : Record) × (record_at (remove_records s owner).zone k ≡ some r)
      kept o k m (r, e) = (
        r,
        (update_elsewhere s owner o k [] c (λ _ _ _ _. refl) (other o k m) (still o k m)).1 ∙ e,
      )

  -- `UpdateRecords` keeps the state consistent (well-formed keys, no key with two owners, a record
  -- at each key that is owned) if the types of the new records have no colon and no other owner
  -- holds one of their keys.
  pub update_records-IsConsistent :
      (s : DsnsState Sink) (owner : String) (rs : List Record)
      → All HasPlainType rs
      → Avoids s owner rs
      → IsConsistent s
      → IsConsistent (update_records s owner rs)
  update_records-IsConsistent s owner rs p a c = record {
    formed = update_records-IsFormed s owner rs p c.formed;
    exclusive = λ o o' k m n. apart o o' k m n;
    served = λ o k m. elim (eq_cases owner o) [
      | inl e ↦
          fresh k
            (ground (arith, ap (mem k) (owned_by-update_records s owner rs o), eq_iff owner o))
      | inr e ↦ kept o k e (rw (owned_by-update_records s owner rs o, e) at m)
    ];
  }
    where
      apart :
          (o o' k : String)
          → mem k (owned_by (update_records s owner rs) o) ≡ true
          → mem k (owned_by (update_records s owner rs) o') ≡ true
          → o ≡ o'
      apart o o' k m n = ground (
        arith,
        ap (mem k) (owned_by-update_records s owner rs o),
        ap (mem k) (owned_by-update_records s owner rs o'),
        eq_iff owner o,
        eq_iff owner o',
        a o k,
        a o' k,
        c.exclusive o o' k,
      )

      fresh :
          (k : String)
          → mem k (map key_of_record rs) ≡ true
          → (r : Record) × (record_at (update_records s owner rs).zone k ≡ some r)
      fresh k m =
          let (r, e) = latest-some k rs m in
          (r, record_at-update_records s owner rs k c.formed ∙ rw e)

      kept :
          (o k : String)
          → (owner == o) ≡ false
          → mem k (owned_by s o) ≡ true
          → (r : Record) × (record_at (update_records s owner rs).zone k ≡ some r)
      kept o k e m =
          let (r, w) = c.served o k m in
          (r, (update_elsewhere s owner o k rs c a (λ q. ground (arith, eq_iff owner o)) m).0 ∙ w)

  -- For a state in which the owners hold well-formed keys only, if two owners are updated, one
  -- after the other, with records of plain types that have a key in common, and the second is then
  -- removed, the first still holds the key, and its record is gone from the zone.
  pub shared_key_lost :
      (s : DsnsState Sink) (a b k : String) (rs ts : List Record)
      → IsFormed s
      → All HasPlainType rs
      → All HasPlainType ts
      → a ≢ b
      → mem k (map key_of_record rs) ≡ true
      → mem k (map key_of_record ts) ≡ true
      → let t = remove_records (update_records (update_records s a rs) b ts) b in
        (mem k (owned_by t a) ≡ true) × (record_at t.zone k ≡ none)
  shared_key_lost s a b k rs ts f p q d m n = (
    rw
        (
          owned_by-remove_records (update_records (update_records s a rs) b ts) b a,
          owned_by-update_records (update_records s a rs) b ts a,
          owned_by-update_records s a rs a,
          eq_of_ne b a (λ e. d (sym e)),
          eq_refl,
        )
        m,
    record_at-remove_records (update_records (update_records s a rs) b ts) b k
          (update_records-IsFormed _ b ts q (update_records-IsFormed s a rs p f))
        ∙ rw (owned_by-update_records (update_records s a rs) b ts b, eq_refl, n),
  )
