-- ===== src/Api/Core.antt =====
-- The fields of Kubernetes' and KubeVirt's own types that the program reads or writes.
use kloudstack.Base.{◌≡◌, Option, none, some, List, [], ◌∷◌, if◌then◌else◌}
use kloudstack.Base.Text.{Text, text_eq}
use kloudstack.Base.Text.Laws.{text_eq_refl}

-- A Go map from strings to strings.
abbrev pub StringMap : Type 0
StringMap = List (Text × Text)

pub lookup : Text → StringMap → Option Text
lookup k [] = none
lookup k ((j, v) ∷ m) = if text_eq j k then some v else lookup k m

abbrev pub or_empty : Option Text → Text
or_empty none = []
or_empty (some v) = v

-- `m[k]`: the empty string if the key is missing.
unfoldable pub lookup_or_empty : Text → StringMap → Text
unfolding lookup
lookup_or_empty k m = or_empty (lookup k m)

pub lookup_or_empty-first : (k v : Text) (m : StringMap) → lookup_or_empty k ((k, v) ∷ m) ≡ v
unfolding lookup_or_empty lookup
lookup_or_empty-first k v m = rw (text_eq_refl k)

-- `m[k] = v`
unfoldable pub insert : Text → Text → StringMap → StringMap
insert k v [] = (k, v) ∷ []
insert k v ((j, w) ∷ m) = if text_eq j k then (k, v) ∷ m else (j, w) ∷ insert k v m

-- metav1.ObjectMeta; `none` is a nil map of annotations.
pub record Meta : Type 0 where
  pub name : Text
  pub namespace : Text
  pub uid : Text
  pub labels : StringMap
  pub annotations : Option StringMap
  pub resource_version : Text

pub record Pod : Type 0 where
  pub meta : Meta

pub record Namespace : Type 0 where
  pub meta : Meta

-- corev1.Secret
pub record Secret : Type 0 where
  pub meta : Meta
  pub contents : StringMap

-- kubevirtv1.VirtualMachine: the secrets that the access credentials of its template name; `none` is a
-- nil template.
pub record VirtualMachine : Type 0 where
  pub meta : Meta
  pub access_credentials : Option (List Text)

-- kubevirtv1.VirtualMachineInstance: its phase and the MACs of its interfaces.
pub record VirtualMachineInstance : Type 0 where
  pub meta : Meta
  pub phase : Text
  pub interfaces : List Text

abbrev pub named : Text → Text → Meta
named namespace name = record {
  name = name;
  namespace = namespace;
  uid = [];
  labels = [];
  annotations = none;
  resource_version = [];
}
