-- ===== src/E2e/Registry/RoundTrip.antt =====
-- That pkg/e2e/registry.go pulls what it pushed.
use seam_core.Prelude.{String, ◌≡◌, refl, ap, ◌∙◌, Option, none, some}
use seam_core.Kube.Client.{Error, Result, ok, err, pure, raise, on_result}
use seam_core.E2e.Registry.{
  HttpRequest, HttpResponse, RegistryClient, digest_of, get_blob, get_manifest,
}
use seam_core.E2e.Registry.Transfer.{body_if_ok, pull_blob, pull_manifest}
use seam_core.E2e.Registry.Artifact.{config_content, push_artifact, pull_layers, pull_artifact}
use seam_core.E2e.Registry.Server.{Ends, Ends-map, Kept, Serves, IsRegistry}
use seam_core.E2e.Registry.Pushed.{own_manifest, Pushed, push_artifact-Pushed}

module _ {S : Type 0} (r : RegistryClient S) (repository tag : String)
    (blob : S → String → Option String) (tagged : S → Option String)
    (Uploading : S → String → Type 0)
    (registry : IsRegistry r repository tag blob tagged Uploading) where
  -- A body is read, and nothing changes.
  abbrev Read : String → S → Result String × S → Type 0
  Read body s (ok b, t) = (b ≡ body) × Kept blob s t
  Read body s (err e, t) = ⊥

  body-Read :
      (what body : String) (req : HttpRequest) (s : S) (x : Result HttpResponse × S)
      → Serves blob body s x
      → Read body s (on_result (body_if_ok r what) (λ e. raise e) x)
  unfolding body_if_ok
  body-Read what body req s (ok resp, t) h = rw (h.0, h.1) (refl, h.2)
  body-Read what body req s (err e, t) h = h

  pull_manifest-Read :
      (json : String) (s : S)
      → r.new_request (get_manifest r repository tag) ≡ none
      → tagged s ≡ some json
      → Read json s (pull_manifest r repository tag s)
  unfolding pull_manifest
  pull_manifest-Read json s b h = rw b (
      body-Read _ json (get_manifest r repository tag) s (r.send (get_manifest r repository tag) s)
        (registry.serves_manifest json s h))

  pull_blob-Read :
      (digest content : String) (s : S)
      → r.new_request (get_blob r repository digest) ≡ none
      → blob s digest ≡ some content
      → Read content s (pull_blob r repository digest s)
  unfolding pull_blob
  pull_blob-Read digest content s b h = rw b (
      body-Read _ content (get_blob r repository digest) s (r.send (get_blob r repository digest) s)
        (registry.serves_blob digest content s h))

  Read-within :
      (g : Error → Error) (body : String) (s : S) (x : Result String × S)
      → Read body s x
      → (on_result pure (λ e. raise (g e)) x).0 ≡ ok body
  Read-within g body s (ok b, t) h = ap ok h.0
  Read-within g body s (err e, t) h = absurd h

  module _ (content : String) (builds : r.new_request (get_manifest r repository tag) ≡ none)
      (builds_blob : r.new_request (get_blob r repository (digest_of r content)) ≡ none)
      (inverse : (json : String)
        → r.marshal (own_manifest r content) ≡ ok json
        → r.unmarshal json ≡ ok (own_manifest r content)) where
    layers_pulled :
        (s t : S)
        → Kept blob s t
        → Pushed r blob tagged content s
        → (pull_layers r repository tag (ok (own_manifest r content)) t).0 ≡ ok content
    unfolding pull_layers
    layers_pulled s t k p =
        Read-within _ content t (pull_blob r repository (digest_of r content) t) (
          pull_blob-Read (digest_of r content) content t builds_blob
            (k (digest_of r content) ∙ p.stored))

    manifest_pulled :
        (s : S) (p : Pushed r blob tagged content s) (g : Error → Error) (x : Result String × S)
        → Read p.json s x
        → (on_result
            (λ json. pull_layers r repository tag (r.unmarshal json))
            raise
            (on_result pure (λ e. raise (g e)) x)).0
          ≡ ok content
    manifest_pulled s p g (ok b, t) h =
        let e : r.unmarshal b ≡ ok (own_manifest r content) =
          ap r.unmarshal h.0 ∙ inverse p.json p.marshalled in
        rw e (layers_pulled s t h.1 p)
    manifest_pulled s p g (err q, t) h = absurd h

    -- What is pushed is pulled: where PushArtifact returns no error, PullArtifact returns the
    -- content. It is over a registry that nobody else writes to, if the requests of the pull can
    -- be built, its manifest decodes as it was encoded, and the content has not the digest
    -- of "{}" unless it is that text.
    pub pull_artifact-push_artifact :
        (digest_of r content ≡ digest_of r config_content → content ≡ config_content)
        → (s : S)
        → Ends
            (λ d t. (pull_artifact r repository tag t).0 ≡ ok content)
            (push_artifact r repository tag content s)
    unfolding pull_artifact
    pull_artifact-push_artifact free s =
        Ends-map (λ d t. Pushed r blob tagged content t) _
          (push_artifact r repository tag content s)
          (λ d t p.
            manifest_pulled t p _ (pull_manifest r repository tag t)
              (pull_manifest-Read p.json t builds p.tag_set))
          (push_artifact-Pushed r repository tag blob tagged Uploading registry content free s)
