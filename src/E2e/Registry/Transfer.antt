-- ===== src/E2e/Registry/Transfer.antt =====
-- The uploads and downloads of pkg/e2e/registry.go: blobs and manifests.
use seam_core.Prelude.{ℕ, String, Bool, ◌||◌, ◌==◌, nat_eq, if◌then◌else◌, decimal, ◌⊕◌}
use seam_core.Kube.Client.{wrap, message, Result, ok, err, Api, pure, raise}
use seam_core.E2e.Registry.{
  HttpResponse, RegistryClient, digest_of, exchange, initiate, absolute, complete_upload, get_blob,
  put_manifest, get_manifest,
}

module _ {S : Type 0} (r : RegistryClient S) where
  unfoldable pub is_created : ℕ → Bool
  is_created status = nat_eq status 201 || nat_eq status 200

  unfoldable pub upload_completed : String → HttpResponse → Api S String
  unfolding is_created
  upload_completed digest resp =
      if is_created resp.status
      then pure digest
      else raise (message ("complete blob upload: unexpected status " ⊕ decimal resp.status))

  unfoldable pub upload_initiated : String → HttpResponse → Api S String
  unfolding absolute upload_completed digest_of
  upload_initiated content resp =
      if nat_eq resp.status 202
      then (if resp.location == ""
          then raise (message "initiate blob upload: no Location header")
          else exchange r (wrap "complete blob upload")
              (complete_upload r (absolute r resp.location) (digest_of r content) content)
              (upload_completed (digest_of r content)))
      else raise (message ("initiate blob upload: unexpected status " ⊕ decimal resp.status))

  unfoldable pub push_blob : String → String → Api S String
  unfolding upload_initiated
  push_blob repository content =
      exchange r (wrap "initiate blob upload") (initiate r repository) (upload_initiated content)

  -- io.ReadAll(resp.Body), where the status is 200.
  abbrev pub read_all : Result String → Api S String
  read_all (ok body) = pure body
  read_all (err e) = raise e

  unfoldable pub body_if_ok : String → HttpResponse → Api S String
  body_if_ok what resp =
      if nat_eq resp.status 200
      then read_all resp.body
      else raise (message (what ⊕ ": status " ⊕ decimal resp.status))

  unfoldable pub pull_blob : String → String → Api S String
  unfolding body_if_ok
  pull_blob repository digest =
      exchange r (λ e. e) (get_blob r repository digest) (body_if_ok ("pull blob " ⊕ digest))

  unfoldable pub manifest_stored : String → HttpResponse → Api S String
  unfolding is_created digest_of
  manifest_stored json resp =
      if is_created resp.status
      then pure (digest_of r json)
      else raise (message ("push manifest: status " ⊕ decimal resp.status))

  unfoldable pub push_manifest : String → String → String → Api S String
  unfolding manifest_stored
  push_manifest repository tag json =
      exchange r (λ e. e) (put_manifest r repository tag json) (manifest_stored json)

  unfoldable pub pull_manifest : String → String → Api S String
  unfolding body_if_ok
  pull_manifest repository tag =
      exchange r (λ e. e) (get_manifest r repository tag)
        (body_if_ok ("pull manifest " ⊕ repository ⊕ ":" ⊕ tag))
