-- ===== src/Dns/Writer.antt =====
-- internal/dns/configmap.go: the dsns-zone ConfigMap and its mirror.
pub mod Refinement
pub mod Apart
use seam_core.Prelude.{
  String, Bool, true, false, List, [], ◌∷◌, Option, none, some, if◌then◌else◌, Dict, get, put,
}
use seam_core.Kube.Object.{ObjectKey}
use seam_core.Kube.Client.{
  Error, Result, ok, err, is_not_found, Api, pure, raise, try_or, on_result, within, ◌>>=◌, ◌>>◌,
  ObjectClient,
}

abbrev pub zone_config_map_name : String
zone_config_map_name = "dsns-zone"

abbrev pub zone_config_map_namespace : String
zone_config_map_namespace = "ont-system"

abbrev pub zone_data_key : String
zone_data_key = "zone.db"

abbrev pub zone_mirror_namespace : String
zone_mirror_namespace = "kube-system"

abbrev pub zone_label_key : String
zone_label_key = "seam.ontai.dev/dsns-zone"

abbrev pub zone_label_value : String
zone_label_value = "true"

abbrev pub zone_owner_annotation_key : String
zone_owner_annotation_key = "governance.infrastructure.ontai.dev/owner"

abbrev pub zone_owner_annotation_val : String
zone_owner_annotation_val = "seam-core"

-- What the writer uses of a `corev1.ConfigMap`; a nil map is an empty one. `entries` is `Data`.
pub record ConfigMap : Type 0 where
  pub name : String
  pub namespace : String
  pub labels : Dict String
  pub annotations : Dict String
  pub entries : Dict String

abbrev pub key_of_map : ConfigMap → ObjectKey
key_of_map c = record { namespace = c.namespace; name = c.name }

abbrev pub zone_key : String → ObjectKey
zone_key ns = record { namespace = ns; name = zone_config_map_name }

-- The object that is created where none is found.
unfoldable pub new_zone_map : String → String → ConfigMap
new_zone_map ns content = record {
  name = zone_config_map_name;
  namespace = ns;
  labels = (zone_label_key, zone_label_value) ∷ [];
  annotations = (zone_owner_annotation_key, zone_owner_annotation_val) ∷ [];
  entries = (zone_data_key, content) ∷ [];
}

-- `existing.Data[ZoneDataKey] = content`
unfoldable pub with_content : ConfigMap → String → ConfigMap
unfolding put
with_content c content = record c { entries = put c.entries zone_data_key content }

module _ {S : Type 0} (client : ObjectClient S ObjectKey ConfigMap) where
  -- The mirror exists: a failure of the patch is logged and dropped.
  unfoldable pub patch_mirror : String → ConfigMap → Api S (Unit {0})
  unfolding with_content
  patch_mirror content existing =
      try_or (client.patch existing (with_content existing content)) pure (λ e. pure tt)

  -- The mirror is created if it is missing; every other failure is logged and dropped.
  unfoldable pub create_mirror : String → Error → Api S (Unit {0})
  unfolding new_zone_map
  create_mirror content e =
      if is_not_found e
      then try_or (client.create (new_zone_map zone_mirror_namespace content)) pure (λ e'. pure tt)
      else pure tt

  -- The write in kube-system.
  unfoldable pub apply_mirror : String → Api S (Unit {0})
  unfolding patch_mirror create_mirror
  apply_mirror content =
      try_or (client.fetch (zone_key zone_mirror_namespace)) (patch_mirror content)
        (create_mirror content)

  -- The primary exists.
  unfoldable pub patch_primary : String → ConfigMap → Api S (Unit {0})
  unfolding apply_mirror with_content
  patch_primary content existing =
      client.patch existing (with_content existing content) >> apply_mirror content

  -- The primary is created if it is missing.
  unfoldable pub create_primary : String → Error → Api S (Unit {0})
  unfolding apply_mirror new_zone_map
  create_primary content e =
      if is_not_found e
      then client.create (new_zone_map zone_config_map_namespace content) >> apply_mirror content
      else raise (Error.wrap "get dsns-zone ConfigMap" e)

  -- The write in ont-system, and then the mirror.
  unfoldable pub apply_content : String → Api S (Unit {0})
  unfolding patch_primary create_primary
  apply_content content =
      try_or (client.fetch (zone_key zone_config_map_namespace)) (patch_primary content)
        (create_primary content)
