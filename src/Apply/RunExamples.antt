-- ===== src/Apply/RunExamples.antt =====
-- pkg/apply: a run that replaces one object and prunes another, and a patch.
use nah.Prelude.{
  sort_by, strip, has_prefix, insert, some, Text, codes, lookup, text_discrete, text_eq, ◌==◌,
  if◌then◌else◌, [], ◌∷◌, none, List, Bool, true, false, ◌≡◌, refl, ◌⊎◌,
}
use nah.Apply.Patch.{
  prune_values, sanitize_patch, without_server_fields, remove_metadata_fields, delete_fields,
  empty_maps, empty_along,
}
use nah.Apply.Compare.{
  hash_fits, sort_object_keys, split_old, split_new, compare_sets, may_delete, should,
}
use nah.Apply.Prepare.{
  applied_from_annotation, get_original_bytes, original_and_modified, get_original_object, Codec,
  prepare_object_for_create, serialize_applied, applied_to_annotation,
}
use nah.Apply.Style.{new_style, get_merge_style}
use nah.Webhook.{create_patch}
use nah.Apply.Update.{send_patch, reconcile, apply_patch, compare_objects, Updates, State}
use nah.Apply.Takeover.{filter_cross_version}
use nah.Apply.Process.{
  carry_out, update_step, delete_step, create_step, run_steps, sync, Applier, process, desired,
  list, list_by_selector, add_objects,
}
use nah.Error.{Error, Result, ok, err, api, not_found, err_replace}
use nah.Kube.{gk_discrete, gvk_discrete, Object, Client}
use nah.Json.{string, Fields, no_fields, field, get_field, delete_field, size}
use nah.Samples.{config_map, kind_of, kind_string, digest}
use nah.Apply.ObjectSet.{
  ObjectSet, add_as, add_by, objects_of, ObjectKey, object_key_eq, object_key_discrete, empty_set,
  key_of, set_contains,
}
use nah.Apply.Orphans.{new_obj, registered_type}
use nah.Apply.Patch.Sanitized.{SendsClean, sanitize_patch-SendsClean}
use nah.Apply.Namespace.{adjust_namespace, adjust_keys}
use nah.Samples

abbrev settings : Object
settings = Samples.object config_map (codes "prod") (codes "settings")

-- An object that is not desired.
abbrev stray : Object
stray = Samples.object config_map (codes "prod") (codes "stray")

-- A codec that writes no more than the name, and reads a specification.
abbrev codec : Codec
codec = record {
  to_map = λ obj. ok (field (codes "name") (string obj.name) no_fields);
  of_map = λ fs. settings;
  marshal = λ obj. ok obj.name;
  marshal_map = λ fs. ok (codes "{...}");
  unmarshal_map = λ t. ok (field (codes "spec") (string (codes "t")) no_fields);
  gzip = λ t. ok t;
  gunzip = λ t. ok t;
  base64 = λ t. t;
  unbase64 = λ t. ok t;
  sha256_hex = digest;
  clear_creation_timestamp = λ obj. obj;
  set_type = λ gvk obj. ok obj;
}

-- Whether the settings are there, now and before.
abbrev History : Type 0
History = List Bool

abbrev server : Client History
server = record {
  get = λ g ns n v. (err (api not_found), v);
  create = λ obj v. (ok obj, true ∷ v);
  update = λ obj v. (ok obj, v);
  update_status = λ obj v. (ok obj, v);
  delete = λ g ns n v.
      (none, if record { name = n; namespace = ns } == key_of settings then false ∷ v else v);
}

-- The reconciler of every kind asks that the object be replaced.
abbrev updates : Updates History
updates = record {
  codec = codec;
  scheme_new = λ gvk. registered_type;
  patch_meta = λ gvk. ok [];
  merge_patch = λ o m c. ok m;
  strategic_patch = λ l o m c. ok m;
  reconciler = λ gvk. some (λ old new. err err_replace);
  unstructured = λ gvk ns n v. settings;
  patch = λ obj style diff v. (ok obj, v);
  ensure = false;
}

abbrev replacing : Applier History
replacing = record {
  updates = updates;
  client = server;
  list_objects = λ gvk ns selector v. (ok (settings ∷ stray ∷ []), v);
  client_scheme_new = λ gvk. registered_type;
  gvk_for_object = kind_of;
  is_namespaced = λ gvk. ok true;
  group_version = λ gvk. gvk.version;
  gvk_string = kind_string;
  sha1_hex = digest;
  valid_owner_changes = [];
  default_namespace = codes "default";
  lister_namespace = [];
  owner = none;
  no_prune = false;
  debug_id = [];
}

abbrev fresh : State History
fresh = record { styles = []; server = true ∷ [] }

abbrev wanted_set : ObjectSet
unfolding add_as add_by insert lookup gvk_discrete gk_discrete object_key_discrete text_discrete
wanted_set = add_as config_map settings empty_set

-- The settings are there unless some key waits to be created again.
abbrev AreThere : List ObjectKey → History → Type 0
AreThere [] [] = ⊥
AreThere [] (now ∷ before) = now ≡ true
AreThere (k ∷ ks) v = Unit

replaces_settings :
    (process replacing config_map (some []) wanted_set fresh).1.server ≡ true ∷ false ∷ true ∷ []
unfolding wanted_set add_as add_by process sync list insert lookup run_steps create_step delete_step
    update_step carry_out desired compare_sets filter_cross_version prepare_object_for_create
    serialize_applied applied_to_annotation objects_of compare_objects apply_patch sanitize_patch
    reconcile send_patch get_original_object original_and_modified create_patch add_objects
    list_by_selector new_obj adjust_namespace adjust_keys split_new split_old sort_object_keys
    should may_delete text_discrete object_key_discrete gvk_discrete gk_discrete set_contains
    get_merge_style new_style without_server_fields remove_metadata_fields delete_fields empty_maps
    empty_along get_original_bytes applied_from_annotation hash_fits prune_values has_prefix strip
    sort_by size get_field delete_field
replaces_settings = refl

-- A patch that would send a status.
abbrev decode : Text → Result Fields
decode t = ok (
    field (codes "status") (string (codes "s"))
      (field (codes "spec") (string (codes "t")) no_fields))

abbrev encode : Fields → Result Text
encode fs = ok (codes "{spec}")

without_status : sanitize_patch decode encode (codes "{both}") ≡ ok (codes "{spec}")
unfolding sanitize_patch without_server_fields remove_metadata_fields delete_fields empty_maps
    empty_along get_field delete_field size text_discrete
without_status = refl

sanitize_patch-SendsClean_example :
    (codes "{spec}" ≡ codes "{}") ⊎ SendsClean decode encode (codes "{both}") (codes "{spec}")
sanitize_patch-SendsClean_example =
    sanitize_patch-SendsClean decode encode (codes "{both}") (codes "{spec}") without_status
