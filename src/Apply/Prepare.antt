-- ===== src/Apply/Prepare.antt =====
-- pkg/apply/desiredset_compare.go: the object as it is created, marked with what was applied, and
-- the object that was applied before, which is read from that mark.
use nah.Prelude.{
  Text, codes, text_eq, nat_eq, insert, ◌==◌, if◌then◌else◌, [], Option, none, some, Bool, true,
  false, ◌||◌, has_prefix,
}
use nah.Error.{Result, ok, err, ◌>>=◌}
use nah.Kube.{GroupVersionKind, Object, at}
use nah.Json.{Fields}
use nah.Apply.Labels.{label_applied}
use nah.Apply.Patch.{prune_values, remove_metadata_fields}

-- The library calls on objects and bytes: data.ToMapInterface, json.Marshal and json.Unmarshal,
-- unstructured.Unstructured of a map, gzip, base64 and SHA-256; SetCreationTimestamp of the zero
-- time; SetAPIVersion and SetKind by meta.TypeAccessor.
pub record Codec : Type 0 where
  pub to_map : Object → Result Fields
  pub of_map : Fields → Object
  pub marshal : Object → Result Text
  pub marshal_map : Fields → Result Text
  pub unmarshal_map : Text → Result Fields
  pub gzip : Text → Result Text
  pub gunzip : Text → Result Text
  pub base64 : Text → Text
  pub unbase64 : Text → Result Text
  pub sha256_hex : Text → Text
  pub clear_creation_timestamp : Object → Object
  pub set_type : GroupVersionKind → Object → Result Object

module _ (c : Codec) where
  -- serializeApplied
  unfoldable pub serialize_applied : Object → Result Text
  unfolding prune_values
  serialize_applied obj = do fs ← c.to_map obj; c.marshal_map (prune_values c.sha256_hex fs false)

  abbrev pub encoded : Text → Result Text → Text
  encoded b (err e) = b
  encoded b (ok zipped) = c.base64 zipped

  -- appliedToAnnotation
  unfoldable pub applied_to_annotation : Text → Text
  applied_to_annotation b = encoded b (c.gzip b)

  abbrev pub or_nothing : Result Text → Text
  or_nothing (err e) = []
  or_nothing (ok b) = b

  -- appliedFromAnnotation; nil is the empty text
  unfoldable pub applied_from_annotation : Text → Text
  applied_from_annotation str =
      if str == [] || has_prefix str (codes "{")
      then str
      else or_nothing (c.unbase64 str >>= c.gunzip)

  abbrev pub cloned : Object → Object
  cloned obj = c.clear_creation_timestamp (record obj { uid = [] })

  abbrev pub with_applied : Text → Object → Object
  with_applied mark obj = record obj { annotations = insert label_applied mark obj.annotations }

  -- prepareObjectForCreate: without `clone`, the object itself is changed, which the caller
  -- follows.
  unfoldable pub prepare_object_for_create : GroupVersionKind → Object → Bool → Result Object
  unfolding serialize_applied applied_to_annotation insert
  prepare_object_for_create gvk obj clone = do
    serialized ← serialize_applied obj
    c.set_type gvk
        (with_applied (applied_to_annotation serialized) (if clone then cloned obj else obj))

  -- getOriginalObject; nil is `none`
  abbrev pub original_of : GroupVersionKind → Text → Result (Option Object)
  original_of gvk original =
      if original == []
      then ok none
      else (c.unmarshal_map original >>= λ fs.
          prepare_object_for_create gvk (c.of_map (remove_metadata_fields fs).1) true >>= λ obj.
          ok (some obj))

  unfoldable pub get_original_object : GroupVersionKind → Object → Result (Option Object)
  unfolding applied_from_annotation prepare_object_for_create remove_metadata_fields
  get_original_object gvk obj =
      original_of gvk (applied_from_annotation (at label_applied obj.annotations))

  abbrev pub original_text : Option Object → Result Text
  original_text none = ok (codes "{}")
  original_text (some obj) = c.marshal obj

  -- getOriginalBytes
  unfoldable pub get_original_bytes : GroupVersionKind → Object → Result Text
  unfolding get_original_object
  get_original_bytes gvk obj = get_original_object gvk obj >>= original_text

  -- originalAndModified
  unfoldable pub original_and_modified : GroupVersionKind → Object → Object → Result (Text × Text)
  unfolding get_original_bytes prepare_object_for_create
  original_and_modified gvk old new = do
    original ← get_original_bytes gvk old
    prepared ← prepare_object_for_create gvk new true
    modified ← c.marshal prepared
    ok (original, modified)
