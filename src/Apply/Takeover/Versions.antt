-- ===== src/Apply/Takeover/Versions.antt =====
-- pkg/apply/desiredset_process.go: what filterCrossVersion keeps.
use nah.Prelude.{
  Text, text_eq, ◌==◌, List, [], ◌∷◌, not, ◌&&◌, ◌≡◌, refl, arith, select, Option, true, false, ◌↔◌,
  is_some, lookup, Bool-cases, inl, inr, contains, contains-select, ap, ◌∙◌, sym, ==_of_eq,
  eq_of_==,
}
use nah.Error.{Result, ok}
use nah.Kube.{GroupVersionKind, group_kind, Object}
use nah.Apply.ObjectSet.{
  ObjectKey, ObjectSet, set_contains, object_key_eq, objects_of, new_object_set,
}
use nah.Apply.ObjectSet.Index.{IsIndexed, new_object_set-IsIndexed}
use nah.Apply.Namespace.{under}
use nah.Apply.Takeover.{filter_cross_version}

-- The loop as a selection.
pub filter_cross_version-select :
    (default : Text) (objs : ObjectSet) (gvk : GroupVersionKind) (keys : List ObjectKey)
    → filter_cross_version default objs gvk keys
      ≡ select
          (λ key.
            not (set_contains objs (group_kind gvk) key)
            && not (
                (key.namespace == default)
                && set_contains objs (group_kind gvk) (record { name = key.name; namespace = [] })))
          keys
unfolding filter_cross_version
filter_cross_version-select default objs gvk [] = refl
filter_cross_version-select default objs gvk (key ∷ keys) =
    ground (arith, filter_cross_version-select default objs gvk keys)

-- Some version of the kind has an object that is to be applied under the key.
abbrev pub IsApplied : ObjectSet → GroupVersionKind → ObjectKey → Type 0
IsApplied objs gvk key =
    (g : GroupVersionKind) × (group_kind g ≡ group_kind gvk)
    × (is_some (lookup key (objects_of objs g)) ≡ true)

not-IsApplied :
    (objs : ObjectSet) (gvk : GroupVersionKind) (key : ObjectKey)
    → IsIndexed objs
    → (set_contains objs (group_kind gvk) key ≡ false) ↔ (¬ IsApplied objs gvk key)
not-IsApplied objs gvk key index = (
  λ h (g, same, there).
      let found : set_contains objs (group_kind gvk) key ≡ true =
        rw same at (index.indexed g key there) in
      cc,
  λ h. elim (Bool-cases (set_contains objs (group_kind gvk) key)) [
    | inl found ↦ absurd (h (index.backed (group_kind gvk) key found))
    | inr absent ↦ absent
  ],
)

-- From what process would prune, of a set that NewObjectSet built, filterCrossVersion keeps exactly
-- the keys under which the set has no object of any version of the kind, and which, where they are
-- in the default namespace, it has no such object for under their name without a namespace either.
pub filter_cross_version_lem :
    (gvk_for_object : Object → Result GroupVersionKind) (given : List (Option Object))
    (objs : ObjectSet) (default : Text) (gvk : GroupVersionKind) (keys : List ObjectKey)
    (key : ObjectKey)
    → new_object_set gvk_for_object given ≡ ok objs
    → (contains (filter_cross_version default objs gvk keys) key ≡ true) ↔ (
        (contains keys key ≡ true)
        × (¬ IsApplied objs gvk key)
        × (key.namespace ≡ default → ¬ IsApplied objs gvk (under [] key)))
filter_cross_version_lem gvk_for_object given objs default gvk keys key built =
    let index = new_object_set-IsIndexed gvk_for_object given objs built in
    let seen = λ (j : ObjectKey). set_contains objs (group_kind gvk) j in
    let kept = λ (j : ObjectKey).
      not (seen j)
      && not ((j.namespace == default) && seen (record { name = j.name; namespace = [] })) in
    let exact : contains (filter_cross_version default objs gvk keys) key
        ≡ (contains keys key && kept key) =
      ap (λ l. contains l key) (filter_cross_version-select default objs gvk keys)
      ∙ contains-select kept keys key in
    let (here_to, here_from) = not-IsApplied objs gvk key index in
    let (bare_to, bare_from) = not-IsApplied objs gvk (under [] key) index in
    (
      λ h.
          let all : (contains keys key && kept key) ≡ true = sym exact ∙ h in
          (
            ground (arith, all),
            here_to (ground (arith, all)),
            λ same.
                bare_to
                  (let home = ==_of_eq key.namespace default same in ground (arith, all, home)),
          ),
      λ (listed, apart, at_home). exact ∙ elim (Bool-cases (key.namespace == default)) [
        | inl home ↦ ground (
          arith,
          listed,
          here_from apart,
          home,
          bare_from (at_home (eq_of_== key.namespace default home)),
        )
        | inr away ↦ ground (arith, listed, here_from apart, away)
      ],
    )
