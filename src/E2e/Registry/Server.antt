-- ===== src/E2e/Registry/Server.antt =====
-- What is relied on of the registry that pkg/e2e/registry.go talks to.
use seam_core.Prelude.{String, ◌≡◌, ◌≢◌, true, Option, none, some}
use seam_core.Kube.Client.{Error, Result, ok, err, Api, pure, raise, on_result}
use seam_core.E2e.Registry.{
  HttpRequest, HttpResponse, RegistryClient, sent_if_built, initiate, absolute, complete_upload,
  get_blob, put_manifest, get_manifest,
}
use seam_core.E2e.Registry.Transfer.{is_created}

-- `P` holds of a result and the state behind it.
abbrev pub Ends : {A S : Type 0} → (A → S → Type 0) → Result A × S → Type 0
Ends P (ok a, t) = P a t
Ends P (err e, t) = Unit

module _ {A B S : Type 0} (P : A → S → Type 0) (Q : B → S → Type 0) where
  pub Ends-bind :
      (f : A → Api S B) (g : Error → Error) (x : Result A × S)
      → Ends P x
      → ((a : A) (t : S) → P a t → Ends Q (f a t))
      → Ends Q (on_result f (λ e. raise (g e)) x)
  Ends-bind f g (ok a, t) h k = k a t h
  Ends-bind f g (err e, t) h k = tt

pub Ends-within :
    {A S : Type 0} (P : A → S → Type 0) (g : Error → Error) (x : Result A × S)
    → Ends P x
    → Ends P (on_result pure (λ e. raise (g e)) x)
Ends-within P g (ok a, t) h = h
Ends-within P g (err e, t) h = tt

pub Ends-map :
    {A S : Type 0} (P Q : A → S → Type 0) (x : Result A × S)
    → ((a : A) (t : S) → P a t → Q a t)
    → Ends P x
    → Ends Q x
Ends-map P Q (ok a, t) f h = f a t h
Ends-map P Q (err e, t) f h = tt

module _ {S : Type 0} (blob : S → String → Option String) where
  -- The blobs are those from before.
  abbrev pub Kept : S → S → Type 0
  Kept s t = (d : String) → blob t d ≡ blob s d

  -- The content is there under its digest, and the other blobs are those from before.
  abbrev pub Added : String → String → S → S → Type 0
  Added digest content s t =
      (blob t digest ≡ some content) × ((d : String) → d ≢ digest → blob t d ≡ blob s d)

  -- The server answers with the body.
  abbrev pub Serves : String → S → Result HttpResponse × S → Type 0
  Serves body s (ok resp, t) = (resp.status ≡ 200) × (resp.body ≡ ok body) × Kept s t
  Serves body s (err e, t) = ⊥

module _ {S : Type 0} (r : RegistryClient S) where
  pub Ends-exchange :
      {B : Type 0} (P : HttpResponse → S → Type 0) (Q : B → S → Type 0) (g : Error → Error)
      → (req : HttpRequest) (f : HttpResponse → Api S B) (o : Option Error) (s : S)
      → Ends P (r.send req s)
      → ((resp : HttpResponse) (t : S) → P resp t → Ends Q (f resp t))
      → Ends Q (sent_if_built r g req f o s)
  Ends-exchange P Q g req f none s h k = Ends-bind P Q f g (r.send req s) h k
  Ends-exchange P Q g req f (some e) s h k = tt

  module _ (repository tag : String) (blob : S → String → Option String)
      (tagged : S → Option String) (Uploading : S → String → Type 0) where
    -- What is relied on of a registry that nobody else writes to, for one repository and one tag:
    -- `blob` is the content under a digest, `tagged` the manifest under the tag, and `Uploading` the
    -- URLs of the uploads that were started.
    pub record IsRegistry : Type 0 where
      pub opens :
          (s : S)
          → Ends
              (λ resp t.
                Kept blob s t × (resp.status ≡ 202 → Uploading t (absolute r resp.location)))
              (r.send (initiate r repository) s)
      pub completes :
          (url digest content : String) (s : S)
          → Uploading s url
          → Ends
              (λ resp t. is_created r resp.status ≡ true → Added blob digest content s t)
              (r.send (complete_upload r url digest content) s)
      pub tags :
          (json : String) (s : S)
          → Ends
              (λ resp t. is_created r resp.status ≡ true → (tagged t ≡ some json) × Kept blob s t)
              (r.send (put_manifest r repository tag json) s)
      pub serves_manifest :
          (json : String) (s : S)
          → tagged s ≡ some json
          → Serves blob json s (r.send (get_manifest r repository tag) s)
      pub serves_blob :
          (digest content : String) (s : S)
          → blob s digest ≡ some content
          → Serves blob content s (r.send (get_blob r repository digest) s)
