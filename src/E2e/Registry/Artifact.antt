-- ===== src/E2e/Registry/Artifact.antt =====
-- PushArtifact and PullArtifact of pkg/e2e/registry.go.
use Prim.Native.String.{len}
use seam_core.Prelude.{String, List, [], ◌∷◌, quote, ◌⊕◌}
use seam_core.Kube.Client.{wrap, message, Result, ok, err, Api, raise, within, ◌>>=◌}
use seam_core.E2e.Registry.{RegistryClient, OciDescriptor, OciManifest, manifest_media_type}
use seam_core.E2e.Registry.Transfer.{push_blob, pull_blob, push_manifest, pull_manifest}

abbrev pub config_content : String
config_content = "{}"

abbrev pub manifest_of : String → String → String → OciManifest
manifest_of content blob_digest config_digest = record {
  schema_version = 2;
  media_type = manifest_media_type;
  config = record {
    media_type = "application/vnd.oci.image.config.v1+json";
    size = len config_content;
    digest = config_digest;
  };
  layers =
      record { media_type = "application/octet-stream"; size = len content; digest = blob_digest }
      ∷ [];
}

module _ {S : Type 0} (r : RegistryClient S) where
  abbrev pub registry_text : String → String → String → String
  registry_text what repository tag =
      "e2e: registry " ⊕ quote r.addr ⊕ ": " ⊕ what ⊕ " for " ⊕ repository ⊕ ":" ⊕ tag

  unfoldable pub push_marshalled : String → String → Result String → Api S String
  unfolding push_manifest
  push_marshalled repository tag (err e) =
      raise (wrap ("e2e: registry " ⊕ quote r.addr ⊕ ": marshal manifest") e)
  push_marshalled repository tag (ok json) =
      within (registry_text "push manifest" repository tag) (push_manifest r repository tag json)

  -- PushArtifact
  unfoldable pub push_artifact : String → String → String → Api S String
  unfolding push_blob push_marshalled
  push_artifact repository tag content =
      within (registry_text "push blob" repository tag) (push_blob r repository content)
      >>= (λ blob_digest.
          within (registry_text "push config blob" repository tag)
            (push_blob r repository config_content)
          >>= (λ config_digest.
              push_marshalled repository tag
                (r.marshal (manifest_of content blob_digest config_digest))))

  abbrev pub first_layer : String → String → List OciDescriptor → Api S String
  first_layer repository tag [] = raise (
      message (
        "e2e: registry "
        ⊕ quote r.addr
        ⊕ ": manifest for "
        ⊕ repository
        ⊕ ":"
        ⊕ tag
        ⊕ " has no layers"))
  first_layer repository tag (l ∷ ls) =
      within (registry_text "pull blob" repository tag) (pull_blob r repository l.digest)

  unfoldable pub pull_layers : String → String → Result OciManifest → Api S String
  unfolding pull_blob
  pull_layers repository tag (err e) =
      raise (wrap (registry_text "decode manifest" repository tag) e)
  pull_layers repository tag (ok m) = first_layer repository tag m.layers

  -- PullArtifact
  unfoldable pub pull_artifact : String → String → Api S String
  unfolding pull_manifest pull_layers
  pull_artifact repository tag =
      within (registry_text "pull manifest" repository tag) (pull_manifest r repository tag)
      >>= (λ json. pull_layers repository tag (r.unmarshal json))
