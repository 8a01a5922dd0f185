-- ===== src/E2e/Applier.antt =====
-- pkg/e2e/applier.go: manifests that are applied on the server's side.
use seam_core.Prelude.{
  String, ◌≡◌, refl, ◌≢◌, ◌⊎◌, inl, inr, Bool, true, Option, none, some, ◌==◌, if◌then◌else◌, quote,
  ◌⊕◌, eq_cases, eq_iff, sym, ap, ◌∙◌,
}
use seam_core.Kube.Client.{
  Error, wrap, message, Result, ok, err, Api, pure, raise, try_or, on_result,
}

-- What `Apply` reads of the decoded manifest.
pub record Manifest : Type 0 where
  pub name : String
  pub namespace : String

-- A call of `Patch`; there is a namespace if the resource was narrowed to one.
pub record PatchCall : Type 0 where
  pub resource : String
  pub namespace : Option String
  pub name : String
  pub body : String
  pub field_manager : String
  pub force : Bool

-- `yaml.YAMLToJSON`, `json.Unmarshal` into an unstructured object, and the dynamic client.
pub record Applier (Applied S : Type 0) : Type 0 where
  pub client_name : String
  pub yaml_to_json : String → Result String
  pub decode : String → Result Manifest
  pub patch : PatchCall → Api S Applied

result_injective : {A : Type 0} (x y : A) → ok x ≡ ok y → x ≡ y
result_injective x y e = cc

module _ {Applied S : Type 0} (a : Applier Applied S) where
  applier_text : String → String
  applier_text m = "e2e: cluster " ⊕ quote a.client_name ⊕ ": CRApplier: " ⊕ m

  abbrev pub patch_of : String → String → Manifest → PatchCall
  patch_of resource json m = record {
    resource = resource;
    namespace = if m.namespace == "" then none else some m.namespace;
    name = m.name;
    body = json;
    field_manager = "seam-e2e";
    force = true;
  }

  unfoldable pub send_patch : String → String → Manifest → Api S Applied
  unfolding applier_text
  send_patch resource json m = try_or (a.patch (patch_of resource json m)) pure (λ e.
      raise (
        wrap (applier_text ("server-side apply " ⊕ resource ⊕ "/" ⊕ m.namespace ⊕ "/" ⊕ m.name)) e))

  unfoldable pub apply_decoded : String → String → Result Manifest → Api S Applied
  unfolding send_patch applier_text
  apply_decoded resource json (err e) = raise (wrap (applier_text "decode manifest") e)
  apply_decoded resource json (ok m) =
      if m.name == ""
      then raise (message (applier_text "manifest has no metadata.name"))
      else send_patch resource json m

  unfoldable pub apply_json : String → Result String → Api S Applied
  unfolding apply_decoded applier_text
  apply_json resource (err e) = raise (wrap (applier_text "parse YAML") e)
  apply_json resource (ok json) = apply_decoded resource json (a.decode json)

  -- CRApplier.Apply
  unfoldable pub apply : String → String → Api S Applied
  unfolding apply_json
  apply resource manifest = apply_json resource (a.yaml_to_json manifest)

  -- A manifest that parses, decodes and has a name.
  pub record IsApplicable (manifest : String) : Type 0 where
    pub json : String
    pub parsed : a.yaml_to_json manifest ≡ ok json
    pub decoded : Manifest
    pub read : a.decode json ≡ ok decoded
    pub named : decoded.name ≢ ""

  -- The call that a manifest is to become: a forced server-side apply of its JSON by the field manager
  -- of the suites, under its name, and in its namespace if it names one.
  pub record IsCallOf (resource json : String) (m : Manifest) (c : PatchCall) : Type 0 where
    pub of_resource : c.resource ≡ resource
    pub name : c.name ≡ m.name
    pub cluster_wide : m.namespace ≡ "" → c.namespace ≡ none
    pub namespaced : m.namespace ≢ "" → c.namespace ≡ some m.namespace
    pub body : c.body ≡ json
    pub manager : c.field_manager ≡ "seam-e2e"
    pub forced : c.force ≡ true

  -- The answer of the server to a call is passed on, an error with a text before it.
  abbrev pub Passed : Result Applied × S → Result Applied × S → Type 0
  Passed (ok v, t) x = x ≡ (ok v, t)
  Passed (err e, t) x = (m : String) × (x ≡ (err (wrap m e), t))

  -- A manifest that cannot be applied is an error, and the server gets nothing; for another the
  -- server gets the one call.
  abbrev pub Sent : String → String → S → Result Applied × S → Type 0
  Sent resource manifest s x =
      (¬ IsApplicable manifest × ((e : Error) × (x ≡ (err e, s))))
      ⊎ ((i : IsApplicable manifest) × (c : PatchCall) × IsCallOf resource i.json i.decoded c
          × Passed (a.patch c s) x)

  patch_of-IsCallOf :
      (resource json : String) (m : Manifest) → IsCallOf resource json m (patch_of resource json m)
  patch_of-IsCallOf resource json m = record {
    of_resource = refl;
    name = refl;
    cluster_wide = λ e. rw ((eq_iff m.namespace "").1 e) refl;
    namespaced = λ n. elim (eq_cases m.namespace "") [ inl e ↦ absurd (n e) | inr e ↦ rw e refl ];
    body = refl;
    manager = refl;
    forced = refl;
  }

  patched :
      (m : String) (x : Result Applied × S) → Passed x (on_result pure (λ e. raise (wrap m e)) x)
  patched m (ok v, t) = refl
  patched m (err e, t) = (m, refl)

  decoded-Sent :
      (resource manifest json : String) (d : Result Manifest) (s : S)
      → a.yaml_to_json manifest ≡ ok json
      → a.decode json ≡ d
      → Sent resource manifest s (apply_decoded resource json d s)
  unfolding apply_decoded send_patch
  decoded-Sent resource manifest json (err e) s p q =
      inl ((λ i. undecoded i (result_injective json i.json (sym p ∙ i.parsed))), (_, refl))
    where
      undecoded : (i : IsApplicable manifest) → json ≡ i.json → ⊥
      undecoded i j = cc (sym q ∙ ap a.decode j ∙ i.read)
  decoded-Sent resource manifest json (ok m) s p q = elim (eq_cases m.name "") [
    | inl n ↦ rw ((eq_iff m.name "").1 n) (
        inl (
          (λ i. i.named (
              ap (λ (d : Manifest). d.name)
                (result_injective i.decoded m
                  (sym i.read ∙ ap a.decode (result_injective i.json json (sym i.parsed ∙ p)) ∙ q))
              ∙ n)),
          (_, refl),
        ))
    | inr n ↦ rw n (
        inr (
          record {
            json = json;
            parsed = p;
            decoded = m;
            read = q;
            named = λ e. cc ((eq_iff m.name "").1 e);
          },
          patch_of resource json m,
          patch_of-IsCallOf resource json m,
          patched _ (a.patch (patch_of resource json m) s),
        ))
  ]

  json-Sent :
      (resource manifest : String) (j : Result String) (s : S)
      → a.yaml_to_json manifest ≡ j
      → Sent resource manifest s (apply_json resource j s)
  unfolding apply_json
  json-Sent resource manifest (err e) s p = inl ((λ i. cc (sym p ∙ i.parsed)), (_, refl))
  json-Sent resource manifest (ok json) s p =
      decoded-Sent resource manifest json (a.decode json) s p refl

  -- If the manifest does not parse or decode, or has no name, `Apply` fails and the server gets
  -- nothing. Otherwise the server gets exactly one call, a forced apply of the JSON under the name of
  -- the manifest, in its namespace if it names one, by the field manager seam-e2e; the object that
  -- the server answers with is the result, and an error of the call is that of `Apply` with a text
  -- before it.
  pub apply-Sent :
      (resource manifest : String) (s : S) → Sent resource manifest s (apply resource manifest s)
  unfolding apply
  apply-Sent resource manifest s = json-Sent resource manifest (a.yaml_to_json manifest) s refl
