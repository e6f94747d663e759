-- ===== src/Apply/Patch.antt =====
-- pkg/apply/desiredset_compare.go: the annotation with what was applied, and the patches that are
-- not worth sending.
pub mod Sanitized
use nah.Prelude.{
  nat_eq, Text, codes, text_eq, ◌==◌, if◌then◌else◌, ltb, length, take, contains, has_prefix, List,
  [], ◌∷◌, ◌++◌, Option, none, some, Bool, true, false, not, ◌&&◌, ◌||◌, is_some, ℕ,
}
use nah.Error.{Error, Result, ok, err, ◌>>=◌}
use nah.Json.{
  Json, null, boolean, number, integer, float, string, array, object, Items, no_items, item, Fields,
  no_fields, field, get_field, delete_field, replace_field, size, as_map,
}
use nah.Apply.Labels.{label_applied}

abbrev pub known_list_keys : List Text
known_list_keys =
    codes "apiVersion"
    ∷ codes "containerPort"
    ∷ codes "devicePath"
    ∷ codes "ip"
    ∷ codes "kind"
    ∷ codes "mountPath"
    ∷ codes "name"
    ∷ codes "port"
    ∷ codes "topologyKey"
    ∷ codes "type"
    ∷ []

-- sha256_hex is the hexadecimal SHA-256 digest.
module _ (sha256_hex : Text → Text) where
  -- A string of more than 64 bytes is cut, and marked by its digest.
  unfoldable pub cut_string : Text → Text
  cut_string x = if ltb 64 (length x) then take 64 x ++ take 8 (sha256_hex x) else x

  abbrev pub plain_value : Bool → Text → Json → Json
  plain_value is_list k (string x) =
      if is_list && contains known_list_keys k then string x else string (cut_string x)
  plain_value is_list k null = null
  plain_value is_list k (boolean b) = boolean b
  plain_value is_list k (number t) = number t
  plain_value is_list k (integer t) = integer t
  plain_value is_list k (float t) = float t
  plain_value is_list k (array l) = array l
  plain_value is_list k (object fs) = object fs

  -- pruneValues and pruneList
  unfoldable mutual
    pub prune_values : Fields → Bool → Fields
    prune_values no_fields is_list = no_fields
    prune_values (field k v fs) is_list =
        field k (prune_value v is_list k) (prune_values fs is_list)

    pub prune_value : Json → Bool → Text → Json
    prune_value (object fs) is_list k = object (prune_values fs false)
    prune_value (array l) is_list k = array (prune_list l)
    prune_value null is_list k = null
    prune_value (boolean b) is_list k = boolean b
    prune_value (number t) is_list k = number t
    prune_value (integer t) is_list k = integer t
    prune_value (float t) is_list k = float t
    prune_value (string x) is_list k = plain_value is_list k (string x)

    pub prune_list : Items → Items
    prune_list no_items = no_items
    prune_list (item v l) = item (prune_item v) (prune_list l)

    pub prune_item : Json → Json
    prune_item (object fs) = object (prune_values fs true)
    prune_item (array l) = array (prune_list l)
    prune_item null = null
    prune_item (boolean b) = boolean b
    prune_item (number t) = number t
    prune_item (integer t) = integer t
    prune_item (float t) = float t
    prune_item (string x) = string x

-- emptyMaps, whose loop goes on to a last key that no map has
unfoldable pub empty_along : Fields → List Text → Bool
empty_along fs [] = true
empty_along fs (key ∷ keys) =
    let below = empty_along (as_map (get_field key fs)) keys in
    if size fs == 0
    then true
    else if ltb 1 (size fs)
    then false
    else if is_some (get_field key fs)
    then below
    else false

unfoldable pub empty_maps : Fields → List Text → Bool
unfolding empty_along
empty_maps fs keys = empty_along fs (keys ++ codes "__invalid_key__" ∷ [])

abbrev pub server_fields : List Text
server_fields =
    codes "creationTimestamp"
    ∷ codes "generation"
    ∷ codes "resourceVersion"
    ∷ codes "uid"
    ∷ codes "managedFields"
    ∷ []

-- Deletes the keys that are there, and says whether there were any.
unfoldable pub delete_fields : List Text → Fields → Bool × Fields
delete_fields [] fs = (false, fs)
delete_fields (k ∷ ks) fs =
    let (more, rest) = delete_fields ks (delete_field k fs) in
    (is_some (get_field k fs) || more, rest)

abbrev pub metadata : Text
metadata = codes "metadata"

abbrev pub annotations : Text
annotations = codes "annotations"

abbrev pub with_map : Text → Option Json → Fields → Fields → Fields
with_map k (some (object old)) new fs = replace_field k (object new) fs
with_map k none new fs = fs
with_map k (some null) new fs = fs
with_map k (some (boolean b)) new fs = fs
with_map k (some (number t)) new fs = fs
with_map k (some (integer t)) new fs = fs
with_map k (some (float t)) new fs = fs
with_map k (some (string t)) new fs = fs
with_map k (some (array l)) new fs = fs

-- removeMetadataFields
unfoldable pub remove_metadata_fields : Fields → Bool × Fields
unfolding delete_fields replace_field
remove_metadata_fields fs =
    let (changed, rest) = delete_fields server_fields (as_map (get_field metadata fs)) in
    (changed, with_map metadata (get_field metadata fs) rest fs)

-- The start of sanitizePatch: what the server sets is not patched.
unfoldable pub without_server_fields : Fields → Bool × Fields
unfolding delete_fields remove_metadata_fields
without_server_fields fs =
    let (top, rest) = delete_fields (codes "kind" ∷ codes "apiVersion" ∷ codes "status" ∷ []) fs in
    let (below, rest') = remove_metadata_fields rest in (top || below, rest')

module _ (unmarshal : Text → Result Fields) (marshal : Fields → Result Text) where
  abbrev pub written : Text → Bool × Fields → Result Text
  written patch (changed, fs) =
      if empty_maps fs (metadata ∷ annotations ∷ [])
      then ok (codes "{}")
      else if empty_maps fs (metadata ∷ annotations ∷ label_applied ∷ [])
      then ok (codes "{}")
      else if not changed
      then ok patch
      else marshal fs

  -- sanitizePatch as applyPatch calls it, with removeObjectSetAnnotation false
  unfoldable pub sanitize_patch : Text → Result Text
  unfolding without_server_fields empty_maps
  sanitize_patch patch = do fs ← unmarshal patch; written patch (without_server_fields fs)
