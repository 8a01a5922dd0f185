-- ===== src/E2e/Servers.antt =====
-- Servers in memory for the tests: an OCI registry with one repository, and an API server for
-- namespaces.
use seam_core.Prelude.{
  ℕ, String, ◌≡◌, refl, sym, List, [], ◌∷◌, Option, none, some, ◌==◌, if◌then◌else◌, ◌⊕◌,
  strip_prefix, strip_prefix-append, Dict, get, eq_iff, eq_refl, eq_of_ne, has_prefix, contains,
}
use seam_core.Kube.Client.{Error, Result, ok, err, ObjectClient}
use seam_core.Kube.Store.{IsStore}
use seam_core.Kube.Memory.{memory, view_memory, memory-IsStore}
use seam_core.E2e.Namespace.{Namespace, IsExclusive}
use seam_core.E2e.Registry.{
  HttpRequest, HttpResponse, RegistryClient, absolute, complete_upload, get_blob,
}
use seam_core.E2e.Registry.Artifact.{config_content, manifest_of}
use seam_core.E2e.Registry.Server.{Added, IsRegistry}

-- What follows the texts, one behind the other.
strip_all : List String → String → Option String
unfolding strip_prefix
strip_all [] s = some s
strip_all (p ∷ ps) s = elim (strip_prefix p s) [ none ↦ none | some rest ↦ strip_all ps rest ]

abbrev concat : List String → String → String
concat [] d = d
concat (p ∷ ps) d = p ⊕ concat ps d

strip_all-concat : (ps : List String) (d : String) → strip_all ps (concat ps d) ≡ some d
unfolding strip_all
strip_all-concat [] d = refl
strip_all-concat (p ∷ ps) d =
    rw (strip_prefix-append p (concat ps d), strip_all) (strip_all-concat ps d)

-- An API server for namespaces.
abbrev pub namespace_store : ObjectClient (List Namespace) String Namespace
namespace_store = memory (λ n. n.name) (λ a b. a == b)

abbrev pub view_namespaces : List Namespace → String → Option Namespace
view_namespaces = view_memory (λ n. n.name) (λ a b. a == b)

pub namespace_store-IsStore : IsStore view_namespaces (λ n. n.name) namespace_store
namespace_store-IsStore = memory-IsStore (λ n. n.name) (λ a b. a == b) eq_iff

creation :
    (n : Namespace) (s : List Namespace) (o : Option Namespace)
    → view_namespaces s n.name ≡ o
    → ((e : Error)
        → (namespace_store.create n s).0 ≡ err e
        → (old : Namespace) × (view_namespaces s n.name ≡ some old))
      × ((namespace_store.create n s).0 ≡ ok tt → view_namespaces s n.name ≡ none)
creation n s none q = (λ e h. cc (rw q at h), λ h. q)
creation n s (some old) q = (λ e h. (old, q), λ h. cc (rw q at h))

pub namespace_store-IsExclusive : IsExclusive "c" namespace_store view_namespaces
namespace_store-IsExclusive = record {
  taken = λ n s e h a. (creation n s (view_namespaces s n.name) refl).0 e h;
  untaken = λ n s h. (creation n s (view_namespaces s n.name) refl).1 h;
}

-- An OCI registry with one repository, "p", and one tag, "v1".
pub record Oci : Type 0 where
  pub blobs : Dict String
  pub tagged : Option String

abbrev upload_url : String
upload_url = "http://r/v2/p/blobs/uploads/1"

abbrev answered : ℕ → String → String → HttpResponse
answered status location body = record { status = status; location = location; body = ok body }

-- A PUT to the upload stores a blob, and any other stores the manifest.
abbrev stored : Option String → String → Oci → Result HttpResponse × Oci
stored (some d) body s = (ok (answered 201 "" ""), record s { blobs = (d, body) ∷ s.blobs })
stored none body s = (ok (answered 201 "" ""), record s { tagged = some body })

abbrev served : Option String → HttpResponse
served none = answered 404 "" ""
served (some body) = answered 200 "" body

abbrev looked_up : Option String → Oci → Option String
looked_up (some d) s = get s.blobs d
looked_up none s = s.tagged

-- The digest in the URL of an upload, and in that of a download.
put_digest : String → Option String
unfolding strip_all
put_digest url = strip_all (upload_url ∷ "?" ∷ "digest=" ∷ []) url

get_digest : String → Option String
unfolding strip_all
get_digest url = strip_all ("http://" ∷ "r" ∷ "/v2/" ∷ "p" ∷ "/blobs/" ∷ []) url

answer_oci : HttpRequest → Oci → Result HttpResponse × Oci
unfolding put_digest get_digest
answer_oci req s =
    if req.method == "POST"
    then (ok (answered 202 "/v2/p/blobs/uploads/1" ""), s)
    else if req.method == "PUT"
    then stored (put_digest req.url) req.body s
    else (ok (served (looked_up (get_digest req.url) s)), s)

-- The digest of a text is itself, and there is one manifest.
unfoldable pub oci_client : String → RegistryClient Oci
unfolding answer_oci
oci_client content = record {
  addr = "r";
  new_request = λ req. none;
  send = answer_oci;
  sha256_hex = λ s. s;
  marshal = λ m. ok "manifest";
  unmarshal = λ json. ok (manifest_of content ("sha256:" ⊕ content) ("sha256:" ⊕ config_content));
}

module _ (content : String) where
  abbrev client : RegistryClient Oci
  client = oci_client content

  abbrev pub oci_blob : Oci → String → Option String
  oci_blob s d = get s.blobs d

  abbrev pub oci_tagged : Oci → Option String
  oci_tagged s = s.tagged

  abbrev pub OciUploading : Oci → String → Type 0
  OciUploading s url = url ≡ upload_url

  digest_of_put : (d : String) → put_digest (complete_upload client upload_url d "").url ≡ some d
  unfolding put_digest contains oci_client
  digest_of_put d = strip_all-concat (upload_url ∷ "?" ∷ "digest=" ∷ []) d

  digest_of_get : (d : String) → get_digest (get_blob client "p" d).url ≡ some d
  unfolding get_digest oci_client
  digest_of_get d = strip_all-concat ("http://" ∷ "r" ∷ "/v2/" ∷ "p" ∷ "/blobs/" ∷ []) d

  added : (d c : String) (s : Oci) → Added oci_blob d c s (record s { blobs = (d, c) ∷ s.blobs })
  unfolding get
  added d c s = (rw (eq_refl d) refl, λ e n. rw (eq_of_ne d e (λ q. n (sym q))) refl)

  pub oci-IsRegistry : IsRegistry client "p" "v1" oci_blob oci_tagged OciUploading
  unfolding answer_oci absolute oci_client has_prefix
  oci-IsRegistry = record {
    opens = λ s. (λ d. refl, λ e. refl);
    completes = λ url d c s u. rw (u, digest_of_put d) (λ e. added d c s);
    tags = λ json s. λ e. (refl, λ d. refl);
    serves_manifest = λ json s h. rw h (refl, refl, λ d. refl);
    serves_blob = λ d c s h. rw (digest_of_get d, h) (refl, refl, λ e. refl);
  }
