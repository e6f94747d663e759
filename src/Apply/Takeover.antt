-- ===== src/Apply/Takeover.antt =====
-- pkg/apply/desiredset_process.go: when an object that exists already is taken over instead of
-- created, and which keys are left out of the deletion.
pub mod Owners
pub mod Versions
use nah.Prelude.{
  Text, codes, text_eq, ◌==◌, if◌then◌else◌, List, [], ◌∷◌, ◌++◌, Bool, true, false, not, ◌&&◌,
  ◌||◌, contains,
}
use nah.Kube.{Object, GroupVersionKind, group_kind, at}
use nah.Apply.ObjectSet.{ObjectKey, ObjectSet, set_contains}
use nah.Apply.Labels.{label_sub_context, label_gvk, label_name, label_namespace, label_hash}

-- annotationsMatch, whose loop stops at the first difference
unfoldable pub match_all : List Text → Object → Object → Bool
match_all [] old new = true
match_all (l ∷ ls) old new =
    let rest = match_all ls old new in
    if not (at l old.annotations == at l new.annotations) then false else rest

unfoldable pub annotations_match : Object → Object → Bool
unfolding match_all
annotations_match =
    match_all (label_sub_context ∷ label_gvk ∷ label_name ∷ label_namespace ∷ label_hash ∷ [])

-- isAssigningSubContext
unfoldable pub is_assigning_sub_context : Object → Object → Bool
is_assigning_sub_context existing new =
    (at label_sub_context existing.annotations == [])
    && (not (at label_sub_context new.annotations == [])
        && ((at label_gvk existing.annotations == at label_gvk new.annotations)
            && ((at label_namespace existing.annotations == at label_namespace new.annotations)
                && (at label_name existing.annotations == at label_name new.annotations))))

-- existingAnno[l] != "" && existingAnno[l] != newAnno[l]
abbrev pub differs_from : Text → Object → Object → Bool
differs_from l existing new =
    not (at l existing.annotations == []) && not (at l existing.annotations == at l new.annotations)

-- The key of validOwnerChange for a change of the sub-context.
abbrev pub owner_change : Text → Text → Text
owner_change from to = from ++ codes " => " ++ to

-- isAllowOwnerTransition, where validOwnerChange holds the given keys
unfoldable pub is_allow_owner_transition : List Text → Object → Object → Bool
is_allow_owner_transition valid existing new =
    if (at label_sub_context new.annotations == [])
      || (differs_from label_gvk existing new
          || (differs_from label_namespace existing new || differs_from label_name existing new))
    then false
    else contains valid (
        owner_change (at label_sub_context existing.annotations)
          (at label_sub_context new.annotations))

-- The guard in createF under which an object that exists already is an error.
unfoldable pub refuses_takeover : List Text → Object → Object → Bool
unfolding annotations_match is_assigning_sub_context is_allow_owner_transition
refuses_takeover valid existing new =
    not (annotations_match existing new)
    && (not (at label_hash existing.labels == [])
        && (not (is_assigning_sub_context existing new)
            && not (is_allow_owner_transition valid existing new)))

-- filterCrossVersion, at the default namespace
unfoldable pub filter_cross_version :
    Text → ObjectSet → GroupVersionKind → List ObjectKey → List ObjectKey
filter_cross_version default objs gvk [] = []
filter_cross_version default objs gvk (key ∷ keys) =
    let rest = filter_cross_version default objs gvk keys in
    if set_contains objs (group_kind gvk) key
    then rest
    else if (key.namespace == default)
        && set_contains objs (group_kind gvk) (record { name = key.name; namespace = [] })
    then rest
    else key ∷ rest
