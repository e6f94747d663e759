-- ===== src/Apply/Labels.antt =====
-- pkg/apply/desiredset_apply.go: the labels and annotations that mark an object as managed, the
-- hash over them, and their injection into the desired objects.
pub mod Hash
use nah.Prelude.{
  Text, codes, Map, lookup, insert, delete, text_eq, text_discrete, ◌==◌, if◌then◌else◌, List, [],
  ◌∷◌, ◌++◌, Option, none, some, Bool, true, false, ◌&&◌, fold, flat, ◌≡◌,
}
use nah.Error.{Error, Result, ok, err, ◌>>=◌}
use nah.Kube.{GroupVersionKind, Object, at}
use nah.Apply.ObjectSet.{ObjectSet, ObjectByKey, empty_set, add}

abbrev pub label_sub_context : Text
label_sub_context = codes "apply.acorn.io/owner-sub-context"

abbrev pub label_gvk : Text
label_gvk = codes "apply.acorn.io/owner-gvk"

abbrev pub label_name : Text
label_name = codes "apply.acorn.io/owner-name"

abbrev pub label_namespace : Text
label_namespace = codes "apply.acorn.io/owner-namespace"

abbrev pub label_hash : Text
label_hash = codes "apply.acorn.io/hash"

abbrev pub label_applied : Text
label_applied = codes "apply.acorn.io/applied"

abbrev pub annotation_prune : Text
annotation_prune = codes "apply.acorn.io/prune"

abbrev pub annotation_create : Text
annotation_create = codes "apply.acorn.io/create"

abbrev pub annotation_update : Text
annotation_update = codes "apply.acorn.io/update"

abbrev pub hash_order : List Text
hash_order = label_sub_context ∷ label_gvk ∷ label_name ∷ label_namespace ∷ []

-- for k, v := range from { into[k] = v }
unfoldable pub put_all : Map Text Text → Map Text Text → Map Text Text
put_all into [] = into
put_all into ((k, v) ∷ from) = put_all (insert k v into) from

unfoldable pub set_annotations : Object → Map Text Text → Object
unfolding put_all
set_annotations obj annotations = record obj {
  annotations = put_all (delete label_applied obj.annotations) annotations;
}

unfoldable pub set_labels : Object → Map Text Text → Object
unfolding put_all
set_labels obj labels = record obj { labels = put_all obj.labels labels }

-- sha1_hex is the hexadecimal SHA-1 digest of what was written.
module _ (sha1_hex : Text → Text) where
  unfoldable pub object_set_hash : Map Text Text → Text
  object_set_hash labels = sha1_hex (flat (λ key. at key labels) hash_order)

  module _ (gvk_string : GroupVersionKind → Text)
      (gvk_for_object : Object → Result GroupVersionKind) where
    unfoldable pub owner_annotations : Text → Option Object → Result (Map Text Text)
    owner_annotations sub_context none = ok ((label_sub_context, sub_context) ∷ [])
    owner_annotations sub_context (some owner) = do
      gvk ← gvk_for_object owner
      ok (
          (label_sub_context, sub_context)
          ∷ (label_gvk, gvk_string gvk)
          ∷ (label_name, owner.name)
          ∷ (label_namespace, owner.namespace)
          ∷ [])

    is_nil : Option Object → Bool
    is_nil none = true
    is_nil (some owner) = false

    -- GetLabelsAndAnnotations: labels, then annotations
    unfoldable pub get_labels_and_annotations :
        Text → Option Object → Result (Map Text Text × Map Text Text)
    unfolding owner_annotations object_set_hash is_nil
    get_labels_and_annotations sub_context owner =
        if sub_context == [] && is_nil owner
        then ok ([], [])
        else (owner_annotations sub_context owner >>= λ annotations.
            ok ((label_hash, object_set_hash annotations) ∷ [], annotations))
