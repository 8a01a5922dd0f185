-- ===== src/Dns/State/Ownership.antt =====
-- The methods of internal/dns/state.go at each record key and at each owner.
use seam_core.Prelude.{
  String, ◌≡◌, refl, ◌∙◌, ap, List, [], ◌∷◌, map, Option, none, some, arith, ◌==◌, if◌then◌else◌,
  mem, All, get, remove, get-put, get-remove, to_lower, Lacks,
}
use seam_core.Dns.Zone.{ZoneFile, Record, record_key, with_ttl, add_record, remove_record}
use seam_core.Dns.Zone.Keys.{
  split_at-record_key, record_key-to_lower, get-add_record, get-remove_record,
}
use seam_core.Dns.State.{
  DsnsState, owned_keys, remove_key, remove_keys, add_records, key_of_record, remove_records,
  own_records, update_records, set_static_record,
}

-- A key made from a record type with no colon.
pub record IsKey (k : String) : Type 0 where
  pub rtype : String
  pub name : String
  pub plain : Lacks ":" rtype
  pub made : k ≡ record_key rtype name

abbrev pub HasPlainType : Record → Type 0
HasPlainType r = Lacks ":" r.rtype

unfoldable pub record_at : ZoneFile → String → Option Record
record_at z k = get z.records k

-- The record that a list leaves at a key: the last one with that key.
unfoldable pub latest : String → List Record → Option Record
latest k [] = none
latest k (r ∷ rs) = elim (latest k rs) [
  | some r' ↦ some r'
  | none ↦ if key_of_record r == k then some (with_ttl r) else none
]

abbrev pub or_else : Option Record → Option Record → Option Record
or_else none o = o
or_else (some r) o = some r

remove_key-record_key :
    (z : ZoneFile) (rtype name : String)
    → Lacks ":" rtype
    → remove_key z (record_key rtype name) ≡ remove_record z rtype (to_lower name)
unfolding remove_key
remove_key-record_key z rtype name h = rw (split_at-record_key rtype name h, remove_key)

record_at-remove_key :
    (z : ZoneFile) (key k : String)
    → IsKey key
    → record_at (remove_key z key) k ≡ (if key == k then none else record_at z k)
unfolding record_at
record_at-remove_key z key k h =
    rw (h.made, remove_key-record_key z h.rtype h.name h.plain)
      (get-remove_record z h.rtype (to_lower h.name) k ∙ rw (record_key-to_lower h.rtype h.name))

pub record_at-remove_keys :
    (z : ZoneFile) (ks : List String) (k : String)
    → All IsKey ks
    → record_at (remove_keys z ks) k ≡ (if mem k ks then none else record_at z k)
unfolding remove_keys
record_at-remove_keys z [] k h = refl
record_at-remove_keys z (key ∷ ks) k h =
    record_at-remove_keys (remove_key z key) ks k h.1
    ∙ rw (record_at-remove_key z key k h.0) (ground arith)

pub record_at-add_records :
    (z : ZoneFile) (rs : List Record) (k : String)
    → record_at (add_records z rs) k ≡ or_else (latest k rs) (record_at z k)
unfolding add_records latest
record_at-add_records z [] k = refl
record_at-add_records z (r ∷ rs) k =
    record_at-add_records (add_record z r) rs k
    ∙ unfold record_at in rw (get-add_record z r k) (ground arith)

module _ {Sink : Type 0} where
  unfoldable pub owned_by : DsnsState Sink → String → List String
  owned_by s owner = owned_keys (get s.owned owner)

  -- Every key that an owner holds was made from a record type with no colon.
  abbrev pub IsFormed : DsnsState Sink → Type 0
  IsFormed s = (owner : String) → All IsKey (owned_by s owner)

  -- For a state in which the owners hold well-formed keys only, after `RemoveRecords` the keys of
  -- the owner have no record, and every other key has the record from before.
  pub record_at-remove_records :
      (s : DsnsState Sink) (owner k : String)
      → IsFormed s
      → record_at (remove_records s owner).zone k
        ≡ (if mem k (owned_by s owner) then none else record_at s.zone k)
  unfolding remove_records owned_by
  record_at-remove_records s owner k h = record_at-remove_keys s.zone (owned_by s owner) k (h owner)

  pub owned_by-remove_records :
      (s : DsnsState Sink) (owner o : String)
      → owned_by (remove_records s owner) o ≡ (if owner == o then [] else owned_by s o)
  unfolding remove_records owned_by
  owned_by-remove_records s owner o = ground (arith, get-remove s.owned owner o)

  -- For a state in which the owners hold well-formed keys only, after `UpdateRecords` each key has
  -- the last of the new records with that key, or else no record if the owner held the key, and
  -- the record from before if it did not.
  pub record_at-update_records :
      (s : DsnsState Sink) (owner : String) (rs : List Record) (k : String)
      → IsFormed s
      → record_at (update_records s owner rs).zone k
        ≡ or_else (latest k rs) (if mem k (owned_by s owner) then none else record_at s.zone k)
  unfolding update_records own_records owned_by
  record_at-update_records s owner [] k h =
      unfold latest in record_at-remove_keys s.zone (owned_by s owner) k (h owner)
  record_at-update_records s owner (r ∷ rs) k h =
      record_at-add_records (remove_keys s.zone (owned_by s owner)) (r ∷ rs) k
      ∙ ap (or_else (latest k (r ∷ rs)))
          (record_at-remove_keys s.zone (owned_by s owner) k (h owner))

  pub owned_by-update_records :
      (s : DsnsState Sink) (owner : String) (rs : List Record) (o : String)
      → owned_by (update_records s owner rs) o
        ≡ (if owner == o then map key_of_record rs else owned_by s o)
  unfolding update_records own_records owned_by
  owned_by-update_records s owner [] o = ground (arith, get-remove s.owned owner o)
  owned_by-update_records s owner (r ∷ rs) o = ground (
    arith,
    get-put (remove s.owned owner) owner (map key_of_record (r ∷ rs)) o,
    get-remove s.owned owner o,
  )

  pub record_at-set_static_record :
      (s : DsnsState Sink) (r : Record) (k : String)
      → record_at (set_static_record s r).zone k
        ≡ (if key_of_record r == k then some (with_ttl r) else record_at s.zone k)
  unfolding set_static_record record_at
  record_at-set_static_record s r k = get-add_record s.zone r k
