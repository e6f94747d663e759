-- ===== src/Apply/ProcessExamples.antt =====
-- pkg/apply/desiredset_process.go at small inputs: a default namespace, an owner, and a takeover.
use nah.Prelude.{
  none, Text, codes, text_eq, text_discrete, lookup, insert, delete, ◌==◌, [], ◌∷◌, some, Bool,
  true, false, ◌||◌, contains, ◌≡◌, refl, ◌⊎◌, ◌↔◌,
}
use nah.Error.{Result, ok}
use nah.Kube.{GroupVersionKind, gvk_eq, gvk_discrete, gk_discrete, Object}
use nah.Samples.{config_map, object, kind_of}
use nah.Apply.ObjectSet.{
  ObjectKey, ObjectByKey, object_key_eq, object_key_discrete, ObjectSet, add_as, empty_set,
  new_object_set,
}
use nah.Apply.Labels.{label_sub_context, label_gvk, label_name, label_namespace, label_hash}
use nah.Apply.Namespace.{adjust_namespace, clear_namespace, set_namespace}
use nah.Apply.Namespace.Cleared.{IsCleared, clear_namespace_lem}
use nah.Apply.Namespace.Moved.{adjust_namespace_lem}
use nah.Apply.Takeover.{
  refuses_takeover, owner_change, filter_cross_version, annotations_match, match_all,
  is_assigning_sub_context, is_allow_owner_transition,
}
use nah.Apply.Takeover.Owners.{agrees, refuses_takeover_lem}
use nah.Apply.Takeover.Versions.{IsApplied, filter_cross_version_lem}
use nah.Apply.Owning.{
  assign_owner_reference, assign_keys, assign_at, assign_one, place, with_reference,
}
use nah.Apply.Owning.Reach.{is_owned, assign_owner_reference_lem}

abbrev bare : Object
bare = object config_map [] (codes "a")

abbrev desired : ObjectByKey
desired = (record { name = codes "a"; namespace = [] }, bare) ∷ []

abbrev key_in : Text → ObjectKey
key_in namespace = record { name = codes "a"; namespace = namespace }

adjust_namespace_lem_example :
    lookup (key_in (codes "web")) (adjust_namespace (codes "web") desired)
    ≡ some (set_namespace (codes "web") bare)
unfolding lookup object_key_discrete text_discrete
adjust_namespace_lem_example =
    adjust_namespace_lem (codes "web") desired (key_in (codes "web")) (refl, tt) refl

-- Managed before for the object x, without a sub-context; desired for x under the sub-context s.
abbrev managed : Object
managed = record bare {
  labels = (label_hash, codes "h1") ∷ [];
  annotations = (label_name, codes "x") ∷ [];
}

abbrev renewed : Object
renewed = record bare {
  labels = (label_hash, codes "h2") ∷ [];
  annotations = (label_name, codes "x") ∷ (label_sub_context, codes "s") ∷ [];
}

refuses_takeover_lem_example :
    (agrees label_gvk managed renewed ≡ true)
    × (agrees label_namespace managed renewed ≡ true)
    × (agrees label_name managed renewed ≡ true)
    × ((agrees label_sub_context managed renewed || contains [] (owner_change [] (codes "s")))
        ≡ true)
unfolding refuses_takeover annotations_match match_all is_assigning_sub_context
    is_allow_owner_transition lookup text_discrete
refuses_takeover_lem_example = refuses_takeover_lem [] managed renewed refl refl

-- An object of another owner is refused.
other_owner :
    refuses_takeover [] (record managed { annotations = (label_name, codes "y") ∷ [] }) renewed
    ≡ true
unfolding refuses_takeover annotations_match match_all is_assigning_sub_context
    is_allow_owner_transition lookup text_discrete
other_owner = refl

abbrev desired_set : ObjectSet
desired_set = add_as config_map bare empty_set

builds : new_object_set kind_of (some bare ∷ []) ≡ ok desired_set
unfolding new_object_set add_as lookup insert gk_discrete gvk_discrete object_key_discrete
    text_discrete
builds = refl

filter_cross_version_lem_example :
    let pruning = key_in (codes "web") ∷ key_in (codes "prod") ∷ [] in
    let kept = filter_cross_version (codes "web") desired_set config_map pruning in
    (contains kept (key_in (codes "prod")) ≡ true) ↔ (
      (contains pruning (key_in (codes "prod")) ≡ true)
      × (¬ IsApplied desired_set config_map (key_in (codes "prod")))
      × (codes "prod" ≡ codes "web" → ¬ IsApplied desired_set config_map (key_in [])))
filter_cross_version_lem_example =
    filter_cross_version_lem kind_of (some bare ∷ []) desired_set (codes "web") config_map
      (key_in (codes "web") ∷ key_in (codes "prod") ∷ []) (key_in (codes "prod")) builds

abbrev owner : Object
owner = object config_map (codes "prod") (codes "parent")

abbrev all_namespaced : GroupVersionKind → Result Bool
all_namespaced gvk = ok true

abbrev assigned : ObjectByKey
assigned =
    (
      key_in (codes "prod"),
      with_reference
          (record {
            api_version = codes "v1";
            kind = codes "ConfigMap";
            name = codes "parent";
            uid = codes "u1";
          })
          (set_namespace (codes "prod") bare),
    )
    ∷ []

assign_owner_reference_lem_example :
    (((codes "prod" == codes "prod") ≡ true)
      × (is_owned (codes "u1") (lookup (key_in (codes "prod")) assigned) ≡ true))
    ⊎ (((codes "prod" == codes "prod") ≡ false)
        × (lookup (key_in (codes "prod")) assigned ≡ lookup (key_in (codes "prod")) desired))
unfolding assign_owner_reference assign_keys assign_at assign_one place insert delete lookup
    object_key_discrete text_discrete
assign_owner_reference_lem_example =
    assign_owner_reference_lem all_namespaced kind_of (λ gvk. gvk.version) config_map refl owner
      config_map desired assigned (key_in (codes "prod")) refl refl refl refl refl refl

abbrev in_web : ObjectByKey
in_web = (key_in (codes "web"), set_namespace (codes "web") bare) ∷ []

clear_namespace_lem_example :
    (lookup (key_in (codes "web")) (clear_namespace in_web) ≡ none)
    × IsCleared in_web (key_in (codes "web")) (lookup (key_in []) (clear_namespace in_web))
unfolding lookup object_key_discrete text_discrete
clear_namespace_lem_example = clear_namespace_lem in_web (key_in (codes "web")) refl refl
