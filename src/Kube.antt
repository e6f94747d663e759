-- ===== src/Kube.antt =====
-- What the program reads and writes of Kubernetes: kinds, keys, the metadata of an object, and the
-- client, whose operations are a parameter.
use nah.Prelude.{Text, Map, text_discrete, HasEq, ℕ, List, [], Option, none, lookup, text_eq, some}
use nah.Error.{Error, Result}

-- schema.GroupVersionKind
pub record GroupVersionKind : Type 0 where
  pub group : Text
  pub version : Text
  pub kind : Text

-- schema.GroupKind
pub record GroupKind : Type 0 where
  pub group : Text
  pub kind : Text

gvk_fields : Discrete GroupVersionKind
unfolding text_discrete
gvk_fields = hlevel text_discrete

unfoldable pub gvk_discrete : Discrete GroupVersionKind
unfolding gvk_fields
gvk_discrete = gvk_fields

instance abbrev pub gvk_eq : HasEq GroupVersionKind
gvk_eq = record { same = gvk_discrete }

gk_fields : Discrete GroupKind
unfolding text_discrete
gk_fields = hlevel text_discrete

unfoldable pub gk_discrete : Discrete GroupKind
unfolding gk_fields
gk_discrete = gk_fields

instance abbrev pub gk_eq : HasEq GroupKind
gk_eq = record { same = gk_discrete }

abbrev pub group_kind : GroupVersionKind → GroupKind
group_kind g = record { group = g.group; kind = g.kind }

-- metav1.OwnerReference; `controller` and `blockOwnerDeletion` are always true here.
pub record OwnerReference : Type 0 where
  pub api_version : Text
  pub kind : Text
  pub name : Text
  pub uid : Text

-- A kclient.Object: its Go type (by the kind that the scheme has for it), its metadata, and the
-- rest of it as opaque text. A deletion timestamp that is zero is `none`.
pub record Object : Type 0 where
  pub go_type : GroupVersionKind
  pub namespace : Text
  pub name : Text
  pub uid : Text
  pub resource_version : Text
  pub generation : ℕ
  pub labels : Map Text Text
  pub annotations : Map Text Text
  pub finalizers : List Text
  pub owner_references : List OwnerReference
  pub deletion_timestamp : Option ℕ
  pub status : Text
  pub content : Text

-- m[k] on a map of strings: the empty string where the key is missing.
abbrev pub or_empty : Option Text → Text
or_empty none = []
or_empty (some v) = v

abbrev pub at : Text → Map Text Text → Text
at k m = or_empty (lookup k m)

-- The calls of a kclient.Client that the program makes, on the state that they change. A call that
-- reads an answer into its object returns the object as it is afterwards.
pub record Client (W : Type 0) : Type 0 where
  pub get : GroupVersionKind → Text → Text → W → Result Object × W
  pub create : Object → W → Result Object × W
  pub update : Object → W → Result Object × W
  pub update_status : Object → W → Result Object × W
  pub delete : GroupVersionKind → Text → Text → W → Option Error × W
