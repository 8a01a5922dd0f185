-- ===== src/Dns/Writer/Refinement.antt =====
-- internal/dns/configmap.go against the store of ConfigMaps: what a write leaves there.
use seam_core.Prelude.{
  String, ◌≡◌, refl, ap, ◌∙◌, ◌≢◌, inl, inr, Option, some, arith, eq_iff, Bool-cases, get,
  get-put_self, subst,
}
use seam_core.Kube.Object.{ObjectKey}
use seam_core.Kube.Client.{Result, ok, err, is_not_found, pure, raise, on_result, ObjectClient}
use seam_core.Kube.Store.{Wrote, ReadAs, IsStore}
use seam_core.Dns.Writer.{
  ConfigMap, key_of_map, zone_key, zone_config_map_namespace, zone_mirror_namespace, zone_data_key,
  new_zone_map, with_content, patch_mirror, create_mirror, apply_mirror, patch_primary,
  create_primary, apply_content,
}

abbrev pub primary : ObjectKey
primary = zone_key zone_config_map_namespace

abbrev pub mirror : ObjectKey
mirror = zone_key zone_mirror_namespace

primary-ne-mirror : primary ≢ mirror
primary-ne-mirror e =
    ground (arith, eq_iff "ont-system" "kube-system", ap (λ k. ObjectKey.namespace k) e)

module _ {S : Type 0} (view : S → ObjectKey → Option ConfigMap) where
  -- The ConfigMap at the key holds the zone.
  abbrev pub Holds : ObjectKey → String → S → Type 0
  Holds k content s =
      (c : ConfigMap) × (view s k ≡ some c) × (get c.entries zone_data_key ≡ some content)

  -- Nothing but the object at the key has changed.
  abbrev pub Elsewhere : ObjectKey → S → S → Type 0
  Elsewhere k s t = (j : ObjectKey) → j ≢ k → view t j ≡ view s j

  -- The outcome of a write of the zone at a key.
  abbrev pub Stored : ObjectKey → String → S → Result (Unit {0}) × S → Type 0
  Stored k content s (ok _, t) = Holds k content t × Elsewhere k s t
  Stored k content s (err _, t) = (j : ObjectKey) → view t j ≡ view s j

  Wrote-Stored :
      (new : ConfigMap) (content : String) (s : S) (p : Result (Unit {0}) × S)
      → get new.entries zone_data_key ≡ some content
      → Wrote view (key_of_map new) new s p
      → Stored (key_of_map new) content s p
  Wrote-Stored new content s (ok _, t) e w = ((new, w.0, e), w.1)
  Wrote-Stored new content s (err _, t) e w = w

  -- The outcome of a best-effort write: it never fails, and it changes nothing else.
  abbrev pub BestEffort : ObjectKey → S → Result (Unit {0}) × S → Type 0
  BestEffort k s p = (p.0 ≡ ok tt) × Elsewhere k s p.1

  dropped :
      (k : ObjectKey) (content : String) (s : S) (p : Result (Unit {0}) × S)
      → Stored k content s p
      → BestEffort k s (on_result pure (λ e. pure tt) p)
  dropped k content s (ok tt, t) h = (refl, h.1)
  dropped k content s (err _, t) h = (refl, λ j n. h j)

  -- Two steps, the first of which only reads.
  read_then :
      (k : ObjectKey) (s t : S) (p : Result (Unit {0}) × S)
      → ((j : ObjectKey) → view t j ≡ view s j)
      → BestEffort k t p
      → BestEffort k s p
  read_then k s t p same h = (h.0, λ j n. h.1 j n ∙ same j)

  -- The outcome of `ApplyContent`: the primary holds the zone and only the two objects may have
  -- changed, or else nothing has changed.
  abbrev pub Published : String → S → Result (Unit {0}) × S → Type 0
  Published content s (ok _, t) =
      Holds primary content t × ((j : ObjectKey) → j ≢ primary → j ≢ mirror → view t j ≡ view s j)
  Published content s (err _, t) = (j : ObjectKey) → view t j ≡ view s j

  since_read :
      (content : String) (s t : S) (q : Result (Unit {0}) × S)
      → ((j : ObjectKey) → view t j ≡ view s j)
      → Published content t q
      → Published content s q
  since_read content s t (ok _, u) same h = (h.0, λ j n m. h.1 j n m ∙ same j)
  since_read content s t (err _, u) same h = λ j. h j ∙ same j

  after_mirror :
      (content : String) (s t : S) (q : Result (Unit {0}) × S)
      → Holds primary content t
      → Elsewhere primary s t
      → BestEffort mirror t q
      → Published content s q
  after_mirror content s t (ok _, u) (c, at_primary, held) e h =
      ((c, h.1 primary primary-ne-mirror ∙ at_primary, held), λ j n m. h.1 j m ∙ e j n)
  after_mirror content s t (err _, u) held e h = absurd (cc h.0)

  module _ (client : ObjectClient S ObjectKey ConfigMap)
      (store : IsStore view key_of_map client) where
    patch-Stored :
        (k : ObjectKey) (content : String) (old : ConfigMap) (s : S)
        → view s k ≡ some old
        → Stored k content s (client.patch old (with_content old content) s)
    unfolding with_content
    patch-Stored k content old s e =
        let q : key_of_map old ≡ k = store.keyed s k old e in
        subst (λ j. Stored j content s (client.patch old (with_content old content) s)) q
          (Wrote-Stored (with_content old content) content s _
            (get-put_self old.entries zone_data_key content)
            (store.patches old (with_content old content) s (ap (view s) q ∙ e)))

    create-Stored :
        (ns content : String) (s : S)
        → Stored (zone_key ns) content s (client.create (new_zone_map ns content) s)
    unfolding new_zone_map get
    create-Stored ns content s =
        Wrote-Stored (new_zone_map ns content) content s _ refl
          (store.creates (new_zone_map ns content) s)

    mirror_read :
        (content : String) (s : S) (p : Result ConfigMap × S)
        → ReadAs view mirror s p
        → BestEffort mirror s
            (on_result (patch_mirror client content) (create_mirror client content) p)
    unfolding patch_mirror create_mirror
    mirror_read content s (ok c, t) h =
        read_then mirror s t _ h.1
          (dropped mirror content t _ (patch-Stored mirror content c t (h.1 mirror ∙ h.0)))
    mirror_read content s (err e, t) h = elim (Bool-cases (is_not_found e)) [
      | inl q ↦ rw q (
          read_then mirror s t _ h.1
            (dropped mirror content t _ (create-Stored zone_mirror_namespace content t)))
      | inr q ↦ rw q (refl, λ j n. h.1 j)
    ]

    apply_mirror-BestEffort :
        (content : String) (s : S) → BestEffort mirror s (apply_mirror client content s)
    unfolding apply_mirror
    apply_mirror-BestEffort content s = mirror_read content s _ (store.reads mirror s)

    then_mirror :
        (content : String) (s : S) (p : Result (Unit {0}) × S)
        → Stored primary content s p
        → Published content s (on_result (λ _. apply_mirror client content) raise p)
    then_mirror content s (err e, t) h = h
    then_mirror content s (ok _, t) h =
        after_mirror content s t _ h.0 h.1 (apply_mirror-BestEffort content t)

    primary_read :
        (content : String) (s : S) (p : Result ConfigMap × S)
        → ReadAs view primary s p
        → Published content s
            (on_result (patch_primary client content) (create_primary client content) p)
    unfolding patch_primary create_primary
    primary_read content s (ok c, t) h =
        since_read content s t _ h.1
          (then_mirror content t _ (patch-Stored primary content c t (h.1 primary ∙ h.0)))
    primary_read content s (err e, t) h = elim (Bool-cases (is_not_found e)) [
      | inl q ↦ rw q (
          since_read content s t _ h.1
            (then_mirror content t _ (create-Stored zone_config_map_namespace content t)))
      | inr q ↦ rw q h.1
    ]

    -- Over a store that nobody else writes, where `ApplyContent` returns nil, the primary
    -- ConfigMap holds the content, whatever became of the mirror, and no other object than the two
    -- has changed; where it returns an error, no object has changed.
    pub apply_content-Published :
        (content : String) (s : S) → Published content s (apply_content client content s)
    unfolding apply_content
    apply_content-Published content s = primary_read content s _ (store.reads primary s)
