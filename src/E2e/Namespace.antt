-- ===== src/E2e/Namespace.antt =====
-- pkg/e2e/namespace.go: the creation of namespaces with the label of the admission webhook.
use seam_core.Prelude.{
  String, ◌≡◌, refl, ◌≢◌, true, [], ◌∷◌, Option, none, some, if◌then◌else◌, Dict, quote, ◌⊕◌, ap,
  ◌∙◌, Bool-cases, inl, inr, get, false,
}
use seam_core.Kube.Client.{
  Error, wrap, Result, ok, err, is_already_exists, Api, pure, raise, try_or, on_result,
  ObjectClient,
}
use seam_core.Kube.Store.{Wrote, IsStore}

abbrev pub webhook_mode_exempt : String
webhook_mode_exempt = "exempt"

abbrev pub webhook_mode_observe : String
webhook_mode_observe = "observe"

abbrev pub webhook_mode_enforce : String
webhook_mode_enforce = "enforce"

abbrev pub webhook_mode_label : String
webhook_mode_label = "seam.ontai.dev/webhook-mode"

-- What the ensurer writes of a `corev1.Namespace`.
pub record Namespace : Type 0 where
  pub name : String
  pub labels : Dict String

abbrev pub labelled : String → String → Namespace
labelled name mode = record { name = name; labels = (webhook_mode_label, mode) ∷ [] }

module _ {S : Type 0} (cluster : String) (namespaces : ObjectClient S String Namespace) where
  unfoldable pub ensure : String → String → Api S (Unit {0})
  ensure name mode = try_or (namespaces.create (labelled name mode)) pure (λ e.
      if is_already_exists e
      then pure tt
      else raise (
          wrap
            ("e2e: cluster " ⊕ quote cluster ⊕ ": NamespaceEnsurer: create namespace " ⊕ quote name)
            e))

  unfoldable pub ensure_seam_system : Api S (Unit {0})
  unfolding ensure
  ensure_seam_system = ensure "seam-system" webhook_mode_exempt

  unfoldable pub ensure_ont_system : Api S (Unit {0})
  unfolding ensure
  ensure_ont_system = ensure "ont-system" webhook_mode_exempt

  unfoldable pub ensure_tenant_namespace : String → Api S (Unit {0})
  unfolding ensure
  ensure_tenant_namespace cluster_name = ensure ("seam-tenant-" ⊕ cluster_name) webhook_mode_enforce

  module _ (view : S → String → Option Namespace) where
    -- A creation answers that the namespace is there exactly if it is.
    pub record IsExclusive : Type 0 where
      pub taken :
          (n : Namespace) (s : S) (e : Error)
          → (namespaces.create n s).0 ≡ err e
          → is_already_exists e ≡ true
          → (old : Namespace) × (view s n.name ≡ some old)
      pub untaken :
          (n : Namespace) (s : S) → (namespaces.create n s).0 ≡ ok tt → view s n.name ≡ none

    -- The namespace from before, or a new one of the name, which has the label with the mode.
    abbrev pub IsThere : String → String → Option Namespace → Namespace → Type 0
    IsThere name mode (some old) n = n ≡ old
    IsThere name mode none n =
        (n.name ≡ name) × (get n.labels "seam.ontai.dev/webhook-mode" ≡ some mode)

    -- An error is that of a creation which failed for another reason than that the namespace is there.
    abbrev pub IsRefusal : String → S → Error → Type 0
    IsRefusal name s e =
        (n : Namespace) × (cause : Error) × (prefix : String) × (n.name ≡ name)
        × ((namespaces.create n s).0 ≡ err cause)
        × (is_already_exists cause ≡ false)
        × (e ≡ wrap prefix cause)

    -- After `Ensure`: the namespace is there and the others are as they were; an error changes
    -- nothing, and is not that the namespace is there.
    abbrev pub Ensured : String → String → S → Result (Unit {0}) × S → Type 0
    Ensured name mode s (ok _, t) =
        ((n : Namespace) × (view t name ≡ some n) × IsThere name mode (view s name) n)
        × ((j : String) → j ≢ name → view t j ≡ view s j)
    Ensured name mode s (err e, t) = ((j : String) → view t j ≡ view s j) × IsRefusal name s e

    labelled-mode :
        (name mode : String)
        → get (labelled name mode).labels "seam.ontai.dev/webhook-mode" ≡ some mode
    unfolding get
    labelled-mode name mode = refl

    module _ (store : IsStore view (λ n. n.name) namespaces) (exclusive : IsExclusive) where
      created :
          (name mode m : String) (s : S) (x : Result (Unit {0}) × S)
          → namespaces.create (labelled name mode) s ≡ x
          → Wrote view name (labelled name mode) s x
          → Ensured name mode s
              (on_result pure (λ e. if is_already_exists e then pure tt else raise (wrap m e)) x)
      created name mode m s (ok _, t) q w =
          let u : view s name ≡ none = exclusive.untaken (labelled name mode) s (ap (λ x. x.0) q) in
          ((labelled name mode, w.0, rw u (refl, labelled-mode name mode)), w.1)
      created name mode m s (err e, t) q w = elim (Bool-cases (is_already_exists e)) [
        | inl p ↦
            let (old, o) = exclusive.taken (labelled name mode) s e (ap (λ x. x.0) q) p in
            rw p ((old, w name ∙ o, rw o refl), λ j d. w j)
        | inr p ↦ rw p (w, (labelled name mode, e, m, refl, ap (λ x. x.0) q, p, refl))
      ]

      -- Over a store that nobody else writes and that refuses a creation exactly of what is there:
      -- where `Ensure` returns nil, a namespace that was there is as it was, with its label, and one
      -- that was not is there with the label of the webhook for the given mode. Where it returns an
      -- error, this wraps one of a creation which failed for another reason than that the namespace
      -- is there. Other namespaces do not change, and an error changes nothing.
      pub ensure-Ensured : (name mode : String) (s : S) → Ensured name mode s (ensure name mode s)
      unfolding ensure
      ensure-Ensured name mode s =
          created name mode _ s (namespaces.create (labelled name mode) s) refl
            (store.creates (labelled name mode) s)
