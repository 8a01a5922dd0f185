-- ===== src/E2e/Registry/Pushed.antt =====
-- What PushArtifact of pkg/e2e/registry.go leaves in the registry.
use seam_core.Prelude.{
  String, ◌≡◌, refl, sym, ap, ◌∙◌, inl, inr, true, Option, some, ◌==◌, nat_eq, arith, eq_cases,
  eq_iff, Bool-cases, subst,
}
use seam_core.Kube.Client.{Result, ok, err}
use seam_core.E2e.Registry.{HttpResponse, RegistryClient, OciManifest, digest_of, absolute}
use seam_core.E2e.Registry.Transfer.{
  is_created, upload_completed, upload_initiated, push_blob, manifest_stored, push_manifest,
}
use seam_core.E2e.Registry.Artifact.{config_content, manifest_of, push_marshalled, push_artifact}
use seam_core.E2e.Registry.Server.{
  Ends, Ends-bind, Ends-within, Ends-map, Ends-exchange, Kept, Added, IsRegistry,
}

-- The manifest that is pushed for the content.
abbrev pub own_manifest : {S : Type 0} → RegistryClient S → String → OciManifest
own_manifest r content = manifest_of content (digest_of r content) (digest_of r config_content)

module _ {S : Type 0} (r : RegistryClient S) (blob : S → String → Option String)
    (tagged : S → Option String) (content : String) where
  -- The artifact is in the registry, under its tag.
  pub record Pushed (t : S) : Type 0 where
    pub json : String
    pub marshalled : r.marshal (own_manifest r content) ≡ ok json
    pub tag_set : tagged t ≡ some json
    pub stored : blob t (digest_of r content) ≡ some content

module _ {S : Type 0} (r : RegistryClient S) (repository tag : String)
    (blob : S → String → Option String) (tagged : S → Option String)
    (Uploading : S → String → Type 0)
    (registry : IsRegistry r repository tag blob tagged Uploading) where
  -- A blob is pushed under its digest.
  abbrev Stored : String → S → String → S → Type 0
  Stored content s digest t =
      (digest ≡ digest_of r content) × Added blob (digest_of r content) content s t

  completed :
      (content : String) (s u : S)
      → Kept blob s u
      → (resp : HttpResponse) (t : S)
      → (is_created r resp.status ≡ true → Added blob (digest_of r content) content u t)
      → Ends (Stored content s) (upload_completed r (digest_of r content) resp t)
  unfolding upload_completed
  completed content s u k resp t h = elim (Bool-cases (is_created r resp.status)) [
    | inl e ↦ rw e (refl, ((h e).0, λ d n. (h e).1 d n ∙ k d))
    | inr e ↦ rw e tt
  ]

  initiated :
      (content : String) (s : S) (resp : HttpResponse) (t : S)
      → Kept blob s t × (resp.status ≡ 202 → Uploading t (absolute r resp.location))
      → Ends (Stored content s) (upload_initiated r content resp t)
  unfolding upload_initiated
  initiated content s resp t (k, h) = elim (Bool-cases (nat_eq resp.status 202)) [
    | inr e ↦ rw e tt
    | inl e ↦ elim (Bool-cases (resp.location == "")) [
      | inl q ↦ rw (e, q) tt
      | inr q ↦
          rw (e, q)
            (Ends-exchange r _ (Stored content s) _ _ _ _ t
              (registry.completes _ _ content t (h (ground arith))) (completed content s t k))
    ]
  ]

  push_blob-Stored :
      (content : String) (s : S) → Ends (Stored content s) (push_blob r repository content s)
  unfolding push_blob
  push_blob-Stored content s =
      Ends-exchange r _ (Stored content s) _ _ _ _ s (registry.opens s) (initiated content s)

  manifest_stored-Tagged :
      (json : String) (s : S)
      → Ends (λ d t. (tagged t ≡ some json) × Kept blob s t) (push_manifest r repository tag json s)
  unfolding push_manifest manifest_stored
  manifest_stored-Tagged json s = Ends-exchange r _ _ _ _ _ _ s (registry.tags json s) (λ resp t h.
      elim (Bool-cases (is_created r resp.status)) [ inl e ↦ rw e (h e) | inr e ↦ rw e tt ])

  module _ (content : String) where
    push_marshalled-Pushed :
        (m : Result String) (s : S)
        → r.marshal (own_manifest r content) ≡ m
        → blob s (digest_of r content) ≡ some content
        → Ends (λ d t. Pushed r blob tagged content t) (push_marshalled r repository tag m s)
    unfolding push_marshalled
    push_marshalled-Pushed (err e) s q b = tt
    push_marshalled-Pushed (ok json) s q b =
        Ends-within (λ d t. Pushed r blob tagged content t) _
          (push_manifest r repository tag json s)
          (Ends-map _ _ (push_manifest r repository tag json s)
            (λ d t h. record {
              json = json;
              marshalled = q;
              tag_set = h.0;
              stored = h.1 (digest_of r content) ∙ b;
            })
            (manifest_stored-Tagged json s))

    -- The content stays when the blob of the configuration is pushed.
    survives :
        (digest_of r content ≡ digest_of r config_content → content ≡ config_content)
        → (s t : S) → blob s (digest_of r content) ≡ some content
        → Added blob (digest_of r config_content) config_content s t
        → blob t (digest_of r content) ≡ some content
    survives free s t b h = elim (eq_cases (digest_of r content) (digest_of r config_content)) [
      | inl e ↦ subst (λ d. blob t d ≡ some content) (sym e) (h.0 ∙ ap some (sym (free e)))
      | inr n ↦ h.1 _ (λ e. cc ((eq_iff _ _).1 e)) ∙ b
    ]

    pub push_artifact-Pushed :
        (digest_of r content ≡ digest_of r config_content → content ≡ config_content)
        → (s : S)
        → Ends (λ d t. Pushed r blob tagged content t) (push_artifact r repository tag content s)
    unfolding push_artifact
    push_artifact-Pushed free s =
        Ends-bind (Stored content s) (λ d t. Pushed r blob tagged content t) _ (λ e. e) _
          (Ends-within (Stored content s) _ (push_blob r repository content s)
            (push_blob-Stored content s))
          (λ d t h.
            Ends-bind (Stored config_content t) (λ d u. Pushed r blob tagged content u) _ (λ e. e) _
              (Ends-within (Stored config_content t) _ (push_blob r repository config_content t)
                (push_blob-Stored config_content t))
              (λ c u k.
                push_marshalled-Pushed _ u (ap r.marshal (rw (h.0, k.0) refl))
                  (survives free t u (h.1).0 k.1)))
