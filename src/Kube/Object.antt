-- ===== src/Kube/Object.antt =====
-- Objects as the reconcilers of internal/controller read them (`unstructured.Unstructured`).
use seam_core.Prelude.{ℕ, String, Bool, false, Option, none, some, List, ◌==◌, Dict, get}

-- client.ObjectKey, types.NamespacedName
pub record ObjectKey : Type 0 where
  pub namespace : String
  pub name : String

-- schema.GroupVersionKind
pub record GroupVersionKind : Type 0 where
  pub group : String
  pub version : String
  pub kind : String

-- A value of type `interface{}` in a condition map: the code looks for texts only.
pub data Value : Type 0 where
  text : String → Value
  number : ℕ → Value
  opaque : Value

-- An item of `status.conditions`: a `map[string]interface{}`, or anything else.
pub data RawCondition : Type 0 where
  fields : Dict Value → RawCondition
  malformed : RawCondition

-- `nested_string` is `unstructured.NestedString` on the object, with "" for a missing field;
-- `conditions` and `ingress` are `unstructured.NestedSlice` at status.conditions and at
-- status.loadBalancer.ingress.
pub record Unstructured : Type 0 where
  pub gvk : GroupVersionKind
  pub namespace : String
  pub name : String
  pub uid : String
  pub generation : ℕ
  pub deleting : Bool
  pub annotations : Dict String
  pub labels : Dict String
  pub finalizers : List String
  pub nested_string : List String → String
  pub conditions : List RawCondition
  pub ingress : List RawCondition

abbrev pub key_of : Unstructured → ObjectKey
key_of u = record { namespace = u.namespace; name = u.name }

-- `v, _ := m[k].(string)`
abbrev pub as_text : Option Value → String
as_text (some (text s)) = s
as_text _ = ""

unfoldable pub text_at : Dict Value → String → String
unfolding get
text_at m k = as_text (get m k)

-- `m[k] == s`
abbrev pub equals_text : Option Value → String → Bool
equals_text (some (text t)) s = t == s
equals_text _ s = false

unfoldable pub is_text : Dict Value → String → String → Bool
unfolding get
is_text m k s = equals_text (get m k) s

-- `m[k]` of a `map[string]string`: "" for a missing key.
abbrev pub or_empty : Option String → String
or_empty none = ""
or_empty (some s) = s

unfoldable pub string_at : Dict String → String → String
unfolding get
string_at m k = or_empty (get m k)
