-- ===== src/Dns/Endpoint.antt =====
-- `clusterEndpointIP` of internal/controller/dsns_reconciler.go, with Go's `net.SplitHostPort`.
use Prim.Native.Char.{code}
use Prim.Native.String.{[], ◌∷◌}
use seam_core.Prelude.{
  String, ◌≡◌, refl, sym, ap, ◌∙◌, ◌==◌, eq_of_ne, true, false, not, ◌&&◌, ◌||◌, Option, none, some,
  arith, nat_eq, if◌then◌else◌, split_at, has_char, ◌⊕◌, split_at-colon, Lacks-has_char,
  has_char-append, split_at-none,
}

-- The host, where the text is `[host]:port` behind the opening bracket.
bracketed_host : String → Option String
bracketed_host s = elim (split_at "]" s) [
  | none ↦ none
  | some (host, rest) ↦ elim rest [
    | [] ↦ none
    | c ∷ port ↦
        if nat_eq (code c) b':'
          && not (has_char ":" port || has_char "[" host || has_char "[" port || has_char "]" port)
        then some host
        else none
  ]
]

-- The host, where the text is `host:port` with one colon and no bracket.
plain_host : String → Option String
plain_host s = elim (split_at ":" s) [
  | none ↦ none
  | some (host, port) ↦
      if has_char ":" port || has_char "[" s || has_char "]" s then none else some host
]

-- The first result of `net.SplitHostPort`; `none` is its error.
unfoldable pub split_host_port : String → Option String
unfolding bracketed_host plain_host split_at has_char
split_host_port [] = none
split_host_port (c ∷ s) = if nat_eq (code c) b'[' then bracketed_host s else plain_host (c ∷ s)

unfoldable pub cluster_endpoint_ip : String → String
unfolding split_host_port
cluster_endpoint_ip endpoint = elim (split_host_port endpoint) [
  | none ↦ endpoint
  | some host ↦ host
]

split_host_port-plain : (s : String) → has_char "[" s ≡ false → split_host_port s ≡ plain_host s
unfolding split_host_port
split_host_port-plain [] h = refl
split_host_port-plain (c ∷ s) h = ground arith

-- A host or a port: no colon and no bracket.
pub record IsBare (s : String) : Type 0 where
  pub no_colon : has_char ":" s ≡ false
  pub no_open : has_char "[" s ≡ false
  pub no_close : has_char "]" s ≡ false

no_bracket :
    (host port : String)
    → IsBare host
    → IsBare port
    → (has_char "[" (host ⊕ ":" ⊕ port) ≡ false) × (has_char "]" (host ⊕ ":" ⊕ port) ≡ false)
no_bracket host port h p = (
  rw (has_char-append "[" host (":" ⊕ port), has_char-append "[" ":" port, h.no_open, p.no_open)
      (unfold has_char in refl),
  rw (has_char-append "]" host (":" ⊕ port), has_char-append "]" ":" port, h.no_close, p.no_close)
      (unfold has_char in refl),
)

plain_host-port :
    (host port : String) → IsBare host → IsBare port → plain_host (host ⊕ ":" ⊕ port) ≡ some host
unfolding plain_host
plain_host-port host port h p = rw (
  split_at-colon host port (Lacks-has_char ":" host h.no_colon),
  plain_host,
  p.no_colon,
  (no_bracket host port h p).0,
  (no_bracket host port h p).1,
)

plain_host-bare : (s : String) → has_char ":" s ≡ false → plain_host s ≡ none
unfolding plain_host
plain_host-bare s h = rw (split_at-none ":" s h, plain_host)

-- For a host and a port that have no colon and no bracket, the port is cut off `host:port`, and
-- the host alone is returned as it is.
pub cluster_endpoint_ip-host :
    (host port : String)
    → IsBare host
    → IsBare port
    → (cluster_endpoint_ip (host ⊕ ":" ⊕ port) ≡ host) × (cluster_endpoint_ip host ≡ host)
unfolding cluster_endpoint_ip
cluster_endpoint_ip-host host port h p = (
  rw (
    split_host_port-plain (host ⊕ ":" ⊕ port) (no_bracket host port h p).0
        ∙ plain_host-port host port h p,
    cluster_endpoint_ip,
  ),
  rw (split_host_port-plain host h.no_open ∙ plain_host-bare host h.no_colon, cluster_endpoint_ip),
)

pub port-ne-empty : (host port : String) → ((host ⊕ ":" ⊕ port) == "") ≡ false
port-ne-empty host port =
    eq_of_ne _ _ (λ (e : host ⊕ ":" ⊕ port ≡ ""). cc (sym full ∙ ap (has_char ":") e ∙ none_there))
  where
    full : has_char ":" (host ⊕ ":" ⊕ port) ≡ true
    full =
        rw (has_char-append ":" host (":" ⊕ port), has_char-append ":" ":" port)
          (unfold has_char in ground arith)

    none_there : has_char ":" "" ≡ false
    none_there = unfold has_char in refl

test_endpoints :
    (cluster_endpoint_ip "10.20.0.10:6443" ≡ "10.20.0.10")
    × (cluster_endpoint_ip "10.20.0.10" ≡ "10.20.0.10")
    × (cluster_endpoint_ip "[fd00::1]:6443" ≡ "fd00::1")
    × (cluster_endpoint_ip "fd00::1" ≡ "fd00::1")
unfolding cluster_endpoint_ip
test_endpoints = (refl, refl, refl, refl)
