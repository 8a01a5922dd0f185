-- ===== src/Lineage/Names.antt =====
-- The names of lineage indexes: `lineageIndexName` of internal/controller/lineage_controller.go,
-- `IndexName` of pkg/lineage/descendant.go, and the kinds that they are used with.
use seam_core.Prelude.{
  String, ◌≡◌, refl, sym, ap, ◌∙◌, Bool, true, false, List, [], ◌∷◌, map, arith, to_lower, split_at,
  split_at-dash, Lacks-has_char, has_char, mem, unique, not, ◌&&◌, inl, inr, eq_cases, eq_iff,
  arith, subst,
}
use mathlib.Core.Option.{some-injective}
use seam_core.Kube.Object.{GroupVersionKind}
use seam_core.Lineage.Labels.{index_name}
use seam_core.Lineage.Control.{lineage_index_name}

abbrev infrastructure : String → GroupVersionKind
infrastructure kind = record {
  group = "infrastructure.ontai.dev";
  version = "v1alpha1";
  kind = kind;
}

abbrev platform : String → GroupVersionKind
platform kind = record { group = "platform.ontai.dev"; version = "v1alpha1"; kind = kind }

abbrev security : String → GroupVersionKind
security kind = record { group = "security.ontai.dev"; version = "v1alpha1"; kind = kind }

abbrev pub root_declaration_gvks : List GroupVersionKind
root_declaration_gvks =
    infrastructure "InfrastructureTalosCluster"
    ∷ platform "UpgradePolicy"
    ∷ platform "NodeMaintenance"
    ∷ platform "ClusterMaintenance"
    ∷ platform "PKIRotation"
    ∷ platform "ClusterReset"
    ∷ platform "NodeOperation"
    ∷ platform "EtcdMaintenance"
    ∷ platform "TalosMachineConfigBackup"
    ∷ platform "TalosMachineConfigRestore"
    ∷ platform "HardeningProfile"
    ∷ infrastructure "SeamInfrastructureCluster"
    ∷ infrastructure "SeamInfrastructureMachine"
    ∷ infrastructure "InfrastructureClusterPack"
    ∷ infrastructure "InfrastructurePackExecution"
    ∷ infrastructure "InfrastructurePackInstance"
    ∷ security "RBACPolicy"
    ∷ security "RBACProfile"
    ∷ security "IdentityBinding"
    ∷ security "IdentityProvider"
    ∷ security "PermissionSet"
    ∷ []

abbrev pub kinds_of : List GroupVersionKind → List String
kinds_of gvks = map (λ g. g.kind) gvks

-- The kinds in lower case are pairwise different and have no dash.
distinct_lower : unique (map to_lower (kinds_of root_declaration_gvks)) ≡ true
unfolding to_lower
distinct_lower = refl

no_dash : List String → Bool
no_dash [] = true
no_dash (k ∷ ks) = not (has_char "-" (to_lower k)) && no_dash ks

kinds_no_dash : no_dash (kinds_of root_declaration_gvks) ≡ true
unfolding no_dash to_lower has_char
kinds_no_dash = refl

no_dash-mem :
    (k : String) (ks : List String)
    → no_dash ks ≡ true
    → mem k ks ≡ true
    → has_char "-" (to_lower k) ≡ false
unfolding no_dash
no_dash-mem k [] h e = cc
no_dash-mem k (j ∷ ks) h e = elim (eq_cases j k) [
  | inl q ↦ subst (λ x. has_char "-" (to_lower x) ≡ false) q (ground arith)
  | inr q ↦ ground (arith, no_dash-mem k ks)
]

mem-map_lower :
    (k : String) (ks : List String) → mem k ks ≡ true → mem (to_lower k) (map to_lower ks) ≡ true
mem-map_lower k [] e = e
mem-map_lower k (j ∷ ks) e = elim (eq_cases j k) [
  | inl q ↦ rw ((eq_iff (to_lower j) (to_lower k)).1 (ap to_lower q)) refl
  | inr q ↦ ground (arith, mem-map_lower k ks)
]

clash :
    (i j : String) (ks : List String)
    → unique (map to_lower (i ∷ ks)) ≡ true
    → mem j ks ≡ true
    → to_lower i ≡ to_lower j
    → ⊥
clash i j ks u m e =
    let p : mem (to_lower i) (map to_lower ks) ≡ true =
      subst (λ t. mem t (map to_lower ks) ≡ true) (sym e) (mem-map_lower j ks m) in
    ground arith

-- Among the kinds of a list with different lower-case forms, the form determines the kind.
lower-injective :
    (k j : String) (ks : List String)
    → unique (map to_lower ks) ≡ true
    → mem k ks ≡ true
    → mem j ks ≡ true
    → to_lower k ≡ to_lower j
    → k ≡ j
lower-injective k j [] u m n e = cc
lower-injective k j (i ∷ ks) u m n e = elim (eq_cases i k) [
  | inl p ↦ elim (eq_cases i j) [
    | inl q ↦ sym p ∙ q
    | inr q ↦ absurd (clash i j ks u (ground arith) (ap to_lower p ∙ e))
  ]
  | inr p ↦ elim (eq_cases i j) [
    | inl q ↦ absurd (clash i k ks u (ground arith) (ap to_lower q ∙ sym e))
    | inr q ↦ lower-injective k j ks (ground arith) (ground arith) (ground arith) e
  ]
]

-- Two names of lineage indexes, one as the operators compute it and one as the controller does, are
-- the same only for the same root declaration, if the kinds are among those that the controller
-- watches.
pub index_name-injective :
    (k j n m : String)
    → mem k (kinds_of root_declaration_gvks) ≡ true
    → mem j (kinds_of root_declaration_gvks) ≡ true
    → index_name k n ≡ lineage_index_name j m
    → (k ≡ j) × (n ≡ m)
unfolding index_name lineage_index_name
index_name-injective k j n m h i e =
    let ks = kinds_of root_declaration_gvks in
    let left =
      split_at-dash (to_lower k) n
        (Lacks-has_char "-" (to_lower k) (no_dash-mem k ks kinds_no_dash h)) in
    let right =
      split_at-dash (to_lower j) m
        (Lacks-has_char "-" (to_lower j) (no_dash-mem j ks kinds_no_dash i)) in
    let both =
      some-injective (to_lower k, n) (to_lower j, m) (sym left ∙ ap (split_at "-") e ∙ right) in
    (lower-injective k j ks distinct_lower h i (ap (λ p. p.0) both), ap (λ p. p.1) both)
