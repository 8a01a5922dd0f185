-- ===== src/E2e/Registry.antt =====
-- pkg/e2e/registry.go: artifacts of one layer in an OCI registry, over HTTP. A text
-- stands for its bytes in UTF-8.
pub mod Transfer
pub mod Artifact
pub mod Server
pub mod Pushed
pub mod RoundTrip
use seam_core.Prelude.{
  ℕ, String, Bool, true, false, not, ◌||◌, List, [], ◌∷◌, Option, none, some, ◌==◌, nat_eq,
  if◌then◌else◌, decimal, quote, has_prefix, contains, ◌⊕◌,
}
use seam_core.Kube.Client.{
  Error, wrap, message, Result, ok, err, Api, pure, raise, try_or, on_result, within, ◌>>=◌,
}

abbrev pub default_registry_addr : String
default_registry_addr = "localhost:5000"

pub record OciDescriptor : Type 0 where
  pub media_type : String
  pub size : ℕ
  pub digest : String

pub record OciManifest : Type 0 where
  pub schema_version : ℕ
  pub media_type : String
  pub config : OciDescriptor
  pub layers : List OciDescriptor

abbrev pub manifest_media_type : String
manifest_media_type = "application/vnd.oci.image.manifest.v1+json"

-- A request with the headers that the client sets, "" for one that it does not set.
pub record HttpRequest : Type 0 where
  pub method : String
  pub url : String
  pub content_type : String
  pub accept : String
  pub body : String

-- What the client reads of a response; the body may fail to be read to its end.
pub record HttpResponse : Type 0 where
  pub status : ℕ
  pub location : String
  pub body : Result String

-- The registry's address, `http.NewRequestWithContext` with `some` for its error, the HTTP client,
-- the digest of crypto/sha256, and encoding/json on manifests.
pub record RegistryClient (S : Type 0) : Type 0 where
  pub addr : String
  pub new_request : HttpRequest → Option Error
  pub send : HttpRequest → Api S HttpResponse
  pub sha256_hex : String → String
  pub marshal : OciManifest → Result String
  pub unmarshal : String → Result OciManifest

-- The address of NewRegistryClient.
unfoldable pub registry_addr : String → String
registry_addr addr = if addr == "" then default_registry_addr else addr

module _ {S : Type 0} (r : RegistryClient S) where
  unfoldable pub digest_of : String → String
  digest_of content = "sha256:" ⊕ r.sha256_hex content

  -- A request is built, sent under the prefix of its errors, and its response read.
  abbrev pub sent_if_built :
      {A : Type 0}
      → (Error → Error)
      → HttpRequest
      → (HttpResponse → Api S A)
      → Option Error
      → Api S A
  sent_if_built g req f (some e) = raise e
  sent_if_built g req f none = try_or (r.send req) f (λ e. raise (g e))

  abbrev pub exchange :
      {A : Type 0} → (Error → Error) → HttpRequest → (HttpResponse → Api S A) → Api S A
  exchange g req f = sent_if_built g req f (r.new_request req)

  abbrev pub initiate : String → HttpRequest
  initiate repository = record {
    method = "POST";
    url = "http://" ⊕ r.addr ⊕ "/v2/" ⊕ repository ⊕ "/blobs/uploads/";
    content_type = "";
    accept = "";
    body = "";
  }

  -- The registry may return a relative URL.
  unfoldable pub absolute : String → String
  absolute url = if has_prefix url "http" then url else "http://" ⊕ r.addr ⊕ url

  abbrev pub complete_upload : String → String → String → HttpRequest
  complete_upload url digest content = record {
    method = "PUT";
    url = url ⊕ (if contains url "?" then "&" else "?") ⊕ "digest=" ⊕ digest;
    content_type = "application/octet-stream";
    accept = "";
    body = content;
  }

  abbrev pub get_blob : String → String → HttpRequest
  get_blob repository digest = record {
    method = "GET";
    url = "http://" ⊕ r.addr ⊕ "/v2/" ⊕ repository ⊕ "/blobs/" ⊕ digest;
    content_type = "";
    accept = "";
    body = "";
  }

  abbrev pub manifest_url : String → String → String
  manifest_url repository tag = "http://" ⊕ r.addr ⊕ "/v2/" ⊕ repository ⊕ "/manifests/" ⊕ tag

  abbrev pub put_manifest : String → String → String → HttpRequest
  put_manifest repository tag json = record {
    method = "PUT";
    url = manifest_url repository tag;
    content_type = manifest_media_type;
    accept = "";
    body = json;
  }

  abbrev pub get_manifest : String → String → HttpRequest
  get_manifest repository tag = record {
    method = "GET";
    url = manifest_url repository tag;
    content_type = "";
    accept = manifest_media_type;
    body = "";
  }
