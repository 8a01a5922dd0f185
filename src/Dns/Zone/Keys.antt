-- ===== src/Dns/Zone/Keys.antt =====
-- The record keys of internal/dns/zone.go: they can be taken apart, and what the operations of the
-- zone do at each key.
use seam_core.Prelude.{
  String, ◌≡◌, none, some, arith, ◌==◌, if◌then◌else◌, get, get-put, get-remove, to_lower,
  to_lower_idem, split_at, split_at-colon, Lacks,
}
use seam_core.Dns.Zone.{ZoneFile, Record, record_key, with_ttl, add_record, remove_record}

-- The key of a record whose type has no colon splits at its first colon into the type and the name
-- in lower case.
pub split_at-record_key :
    (rtype name : String)
    → Lacks ":" rtype
    → split_at ":" (record_key rtype name) ≡ some (rtype, to_lower name)
unfolding record_key
split_at-record_key rtype name h = split_at-colon rtype (to_lower name) h

-- The name may be given in any case.
pub record_key-to_lower :
    (rtype name : String) → record_key rtype (to_lower name) ≡ record_key rtype name
unfolding record_key
record_key-to_lower rtype name = rw to_lower_idem

pub get-add_record :
    (z : ZoneFile) (r : Record) (k : String)
    → get (add_record z r).records k
      ≡ (if record_key r.rtype r.name == k then some (with_ttl r) else get z.records k)
unfolding add_record with_ttl
get-add_record z r k = ground (arith, get-put z.records (record_key r.rtype r.name) (with_ttl r) k)

pub get-remove_record :
    (z : ZoneFile) (rtype name k : String)
    → get (remove_record z rtype name).records k
      ≡ (if record_key rtype name == k then none else get z.records k)
unfolding remove_record
get-remove_record z rtype name k = get-remove z.records (record_key rtype name) k
