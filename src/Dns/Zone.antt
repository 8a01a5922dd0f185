-- ===== src/Dns/Zone.antt =====
-- internal/dns/zone.go: the zone file as a map from record keys to records, and its rendering.
pub mod Keys
use seam_core.Prelude.{
  ℕ, String, Bool, true, false, List, [], ◌∷◌, Option, none, some, ◌==◌, nat_eq, if◌then◌else◌,
  Dict, get, put, remove, keys, to_lower, decimal, ◌⊕◌, sort_strings,
}

-- The zone that DSNS serves.
abbrev pub zone : String
zone = "seam.ontave.dev"

abbrev pub default_ttl : ℕ
default_ttl = 300

abbrev pub dsns_nameserver : String
dsns_nameserver = "ns." ⊕ zone

abbrev pub dsns_soa_contact : String
dsns_soa_contact = "hostmaster." ⊕ zone

-- `RecordType` is a string type; these are its declared values.
abbrev pub record_type_a : String
record_type_a = "A"

abbrev pub record_type_txt : String
record_type_txt = "TXT"

abbrev pub record_type_ns : String
record_type_ns = "NS"

-- `type` is a DNS record type. A TTL is not negative anywhere in the program.
pub record Record : Type 0 where
  pub name : String
  pub rtype : String
  pub ttl : ℕ
  pub value : String

-- "TYPE:lowercase-name"
unfoldable pub record_key : String → String → String
unfolding to_lower
record_key rtype name = rtype ⊕ ":" ⊕ to_lower name

pub record ZoneFile : Type 0 where
  pub records : Dict Record

abbrev pub new_zone_file : ZoneFile
new_zone_file = record { records = [] }

-- A TTL of zero becomes the default.
unfoldable pub with_ttl : Record → Record
with_ttl r = if nat_eq r.ttl 0 then record r { ttl = default_ttl } else r

unfoldable pub add_record : ZoneFile → Record → ZoneFile
unfolding put with_ttl record_key
add_record z r =
    let r' = with_ttl r in record { records = put z.records (record_key r'.rtype r'.name) r' }

unfoldable pub remove_record : ZoneFile → String → String → ZoneFile
unfolding remove record_key
remove_record z rtype name = record { records = remove z.records (record_key rtype name) }

-- One line of the zone file.
unfoldable pub render_record : Record → String
unfolding decimal
render_record r =
    let ttl = decimal (if nat_eq r.ttl 0 then default_ttl else r.ttl) in
    if r.rtype == record_type_txt
    then r.name ⊕ " " ⊕ ttl ⊕ " IN TXT \"" ⊕ r.value ⊕ "\"\n"
    else if r.rtype == record_type_ns
    then r.name ⊕ " " ⊕ ttl ⊕ " IN NS " ⊕ r.value ⊕ ".\n"
    else r.name ⊕ " " ⊕ ttl ⊕ " IN A " ⊕ r.value ⊕ "\n"

-- The line of a key. The keys come from the map, so the lookup finds a record.
unfoldable pub render_entry : ZoneFile → String → String
unfolding get render_record
render_entry z k = elim (get z.records k) [ none ↦ "" | some r ↦ render_record r ]

unfoldable pub render_entries : ZoneFile → List String → String
unfolding render_entry
render_entries z [] = ""
render_entries z (k ∷ ks) = render_entry z k ⊕ render_entries z ks

-- The directives, the SOA record with its serial, and the NS record of the zone.
unfoldable pub render_header : ℕ → String
unfolding decimal
render_header serial =
    ("$ORIGIN " ⊕ zone ⊕ ".\n")
    ⊕ ("$TTL " ⊕ decimal default_ttl ⊕ "\n\n")
    ⊕ ("@ "
        ⊕ decimal default_ttl
        ⊕ " IN SOA "
        ⊕ dsns_nameserver
        ⊕ ". "
        ⊕ dsns_soa_contact
        ⊕ ". (\n")
    ⊕ ("    " ⊕ decimal serial ⊕ " ; serial\n")
    ⊕ "    3600        ; refresh\n"
    ⊕ "    900         ; retry\n"
    ⊕ "    604800      ; expire\n"
    ⊕ ("    " ⊕ decimal default_ttl ⊕ "         ; minimum TTL\n")
    ⊕ ")\n\n"
    ⊕ ("@ " ⊕ decimal default_ttl ⊕ " IN NS " ⊕ dsns_nameserver ⊕ ".\n\n")

-- The whole file; `now` is the Unix time, in seconds.
unfoldable pub render : ℕ → ZoneFile → String
unfolding render_header render_entries sort_strings keys
render now z = render_header now ⊕ render_entries z (sort_strings (keys z.records))
