-- ===== src/E2e/Client.antt =====
-- pkg/e2e/client.go: the clients of a named cluster.
use seam_core.Prelude.{String, quote, ◌⊕◌}
use seam_core.Kube.Client.{wrap, Result, ok, err}

-- client-go: the configuration of a kubeconfig file, and the clients that are built from it.
pub record ClientGo (Config Typed Dynamic : Type 0) : Type 0 where
  pub build_config : String → Result Config
  pub typed_for : Config → Result Typed
  pub dynamic_for : Config → Result Dynamic

pub record ClusterClient (Typed Dynamic : Type 0) : Type 0 where
  pub name : String
  pub typed : Typed
  pub dynamic : Dynamic

module _ {Config Typed Dynamic : Type 0} (go : ClientGo Config Typed Dynamic) (name : String) where
  cluster_text : String → String
  cluster_text m = "e2e: cluster " ⊕ quote name ⊕ ": " ⊕ m

  unfoldable pub with_dynamic : Typed → Result Dynamic → Result (ClusterClient Typed Dynamic)
  unfolding cluster_text
  with_dynamic typed (err e) = err (wrap (cluster_text "build dynamic client") e)
  with_dynamic typed (ok dyn) = ok (record { name = name; typed = typed; dynamic = dyn })

  unfoldable pub with_typed : Config → Result Typed → Result (ClusterClient Typed Dynamic)
  unfolding cluster_text with_dynamic
  with_typed cfg (err e) = err (wrap (cluster_text "build typed client") e)
  with_typed cfg (ok typed) = with_dynamic typed (go.dynamic_for cfg)

  unfoldable pub with_config : String → Result Config → Result (ClusterClient Typed Dynamic)
  unfolding cluster_text with_typed
  with_config path (err e) = err (wrap (cluster_text ("load kubeconfig " ⊕ quote path)) e)
  with_config path (ok cfg) = with_typed cfg (go.typed_for cfg)

  unfoldable pub new_cluster_client : String → Result (ClusterClient Typed Dynamic)
  unfolding with_config
  new_cluster_client path = with_config path (go.build_config path)
