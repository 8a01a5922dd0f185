-- ===== src/Dns/Writer/Apart.antt =====
-- That internal/dns/configmap.go writes ConfigMaps and nothing else.
use seam_core.Prelude.{String}
use seam_core.Kube.Object.{ObjectKey}
use seam_core.Kube.Client.{is_not_found, ObjectClient}
use seam_core.Kube.Stable.{Stable, StableClient, Stable-pure, Stable-raise, Stable-try, Stable-if}
use seam_core.Dns.Writer.{
  ConfigMap, patch_mirror, create_mirror, apply_mirror, patch_primary, create_primary,
  apply_content,
}

module _ {S : Type 0} {P : S → Type 0} (client : ObjectClient S ObjectKey ConfigMap)
    (stable : StableClient P client) where
  apply_mirror-Stable : (content : String) → Stable P (apply_mirror client content)
  unfolding apply_mirror patch_mirror create_mirror
  apply_mirror-Stable content =
      Stable-try _ _ _ (stable.fetches _)
        (λ c. Stable-try _ _ _ (stable.patches _ _) Stable-pure (λ e. Stable-pure tt))
        (λ e.
          Stable-if (is_not_found e) _ _
            (Stable-try _ _ _ (stable.creates _) Stable-pure (λ q. Stable-pure tt))
            (Stable-pure tt))

  -- What the calls for ConfigMaps keep, `ApplyContent` keeps.
  pub apply_content-Stable : (content : String) → Stable P (apply_content client content)
  unfolding apply_content patch_primary create_primary
  apply_content-Stable content =
      Stable-try _ _ _ (stable.fetches _)
        (λ c. Stable-try _ _ _ (stable.patches _ _) (λ u. apply_mirror-Stable content) Stable-raise)
        (λ e.
          Stable-if (is_not_found e) _ _
            (Stable-try _ _ _ (stable.creates _) (λ u. apply_mirror-Stable content) Stable-raise)
            (Stable-raise _))
