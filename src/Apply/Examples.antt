-- ===== src/Apply/Examples.antt =====
-- The theorems of pkg/apply at concrete inputs.
use nah.Prelude.{
  Text, codes, Map, lookup, text_eq, text_discrete, [], ◌∷◌, none, some, false, ◌||◌, ◌≡◌, refl,
  inl, IsNodup, contains, lookup-swap, sort_by, ◌==◌, nat_eq,
}
use nah.Kube.{GroupVersionKind, gvk_eq, gvk_discrete, gk_discrete, Object}
use nah.Samples.{config_map, deployment, object, kind_of, kind_string, digest}
use nah.Apply.ObjectSet.{
  object_key_eq, object_key_discrete, ObjectByKey, key_of, ObjectSet, add_as, empty_set,
  new_object_set, seen, order_of_kinds,
}
use nah.Apply.ObjectSet.Index.{IsIndexed, new_object_set-IsIndexed, order_of_kinds_lem}
use nah.Apply.Labels.{
  label_sub_context, label_gvk, label_name, label_namespace, annotation_prune,
  get_labels_and_annotations,
}
use nah.Apply.Labels.Hash.{marked-HasOwnHash, marked, hashed, HasOwnHash}
use nah.Apply.Compare.{compare_sets}
use nah.Apply.Compare.Decisions.{Lists, to_create, to_delete, to_update, compare_sets_lem}
use nah.Apply.Compare.Order.{compare_sets-order}

abbrev web : Object
web = object deployment (codes "prod") (codes "web")

abbrev settings : Object
settings = object config_map (codes "prod") (codes "settings")

abbrev pinned : Object
pinned = record (object config_map (codes "prod") (codes "pinned")) {
  annotations = (annotation_prune, codes "false") ∷ [];
}

abbrev stale : Object
stale = object config_map (codes "prod") (codes "stale")

abbrev two_kinds : ObjectSet
unfolding add_as gvk_discrete gk_discrete object_key_discrete text_discrete
two_kinds = add_as deployment web (add_as config_map settings empty_set)

new_object_set-IsIndexed_example : IsIndexed two_kinds
unfolding new_object_set gvk_discrete gk_discrete object_key_discrete text_discrete
new_object_set-IsIndexed_example =
    new_object_set-IsIndexed kind_of (some settings ∷ none ∷ some web ∷ []) two_kinds refl

order_of_kinds_lem_example :
    IsNodup (order_of_kinds kind_string two_kinds (deployment ∷ []))
    × ((g : GroupVersionKind)
        → contains (order_of_kinds kind_string two_kinds (deployment ∷ [])) g
          ≡ (seen two_kinds g || contains (deployment ∷ []) g))
order_of_kinds_lem_example =
    order_of_kinds_lem kind_string two_kinds (deployment ∷ []) new_object_set-IsIndexed_example
      (refl, tt)

abbrev marks_web : Map Text Text × Map Text Text
marks_web = hashed digest kind_string kind_of (
    (label_sub_context, codes "ctx")
    ∷ (label_gvk, kind_string deployment)
    ∷ (label_name, codes "web")
    ∷ (label_namespace, codes "prod")
    ∷ [])

marked-HasOwnHash_example :
    HasOwnHash digest kind_string kind_of (marked digest kind_string kind_of pinned marks_web)
unfolding get_labels_and_annotations text_discrete
marked-HasOwnHash_example =
    marked-HasOwnHash digest kind_string kind_of (codes "ctx") (some web) pinned {m = marks_web}
      (inl (λ h. cc)) refl

abbrev desired : ObjectByKey
desired = (key_of web, web) ∷ (key_of settings, settings) ∷ []

abbrev existing : ObjectByKey
existing = (key_of settings, settings) ∷ (key_of pinned, pinned) ∷ (key_of stale, stale) ∷ []

compare_sets_example :
    compare_sets digest existing desired
    ≡ (key_of web ∷ [], key_of stale ∷ [], key_of settings ∷ [])
unfolding compare_sets sort_by lookup text_discrete object_key_discrete
compare_sets_example = refl

compare_sets_lem_example :
    Lists digest (to_create digest existing desired) (compare_sets digest existing desired).0
    × Lists digest (to_delete digest existing desired) (compare_sets digest existing desired).1
    × Lists digest (to_update digest existing desired) (compare_sets digest existing desired).2
unfolding object_key_discrete text_discrete
compare_sets_lem_example =
    compare_sets_lem digest existing desired (refl, (refl, (refl, tt))) (refl, (refl, tt))

abbrev desired_swapped : ObjectByKey
desired_swapped = (key_of settings, settings) ∷ (key_of web, web) ∷ []

keys_differ : (key_of web == key_of settings) ≡ false
unfolding object_key_discrete text_discrete
keys_differ = refl

compare_sets-order_example :
    compare_sets digest existing desired ≡ compare_sets digest existing desired_swapped
unfolding object_key_discrete text_discrete
compare_sets-order_example =
    compare_sets-order digest existing existing desired desired_swapped (refl, (refl, (refl, tt)))
      (refl, (refl, (refl, tt))) (refl, (refl, tt)) (refl, (refl, tt)) (λ k. refl)
      (λ k. lookup-swap (key_of web) (key_of settings) k web settings [] keys_differ)
      (
        record { in_name = refl; in_namespace = refl },
        (
          record { in_name = refl; in_namespace = refl },
          (record { in_name = refl; in_namespace = refl }, tt),
        ),
      )
      (
        record { in_name = refl; in_namespace = refl },
        (record { in_name = refl; in_namespace = refl }, tt),
      )
