-- ===== src/Apply/Compare.antt =====
-- pkg/apply/desiredset_process.go: which objects to create, update and delete.
pub mod Decisions
pub mod Order
use nah.Prelude.{
  Text, codes, Map, lookup, text_eq, text_discrete, ◌==◌, if◌then◌else◌, is_some, List, [], ◌∷◌,
  ◌++◌, Option, none, some, Bool, true, false, not, ◌&&◌, sort_by, ℕ,
}
use nah.Kube.{Object, at}
use nah.Apply.ObjectSet.{ObjectKey, ObjectByKey, object_key_eq, object_key_discrete, key_string}
use nah.Apply.Labels.{
  annotation_create, annotation_update, annotation_prune, label_hash, object_set_hash,
}

-- should
unfoldable pub should : Object → Text → Bool
should obj label = not (at label obj.annotations == codes "false")

-- sortObjectKeys
unfoldable pub sort_object_keys : List ObjectKey → List ObjectKey
sort_object_keys = sort_by key_string

-- The first loop of compareSets: what it appends to toCreate, and to toUpdate.
unfoldable pub split_new : ObjectByKey → ObjectByKey → List ObjectKey × List ObjectKey
unfolding should
split_new existing [] = ([], [])
split_new existing ((k, obj) ∷ new) =
    let (create, update) = split_new existing new in
    if is_some (lookup k existing)
    then (create, if should obj annotation_update then k ∷ update else update)
    else (if should obj annotation_create then k ∷ create else create, update)

abbrev pub is_zero : Option ℕ → Bool
is_zero none = true
is_zero (some t) = false

module _ (sha1_hex : Text → Text) where
  -- !ok || labelHash == objectSetHash(…)
  unfoldable pub hash_fits : Object → Option Text → Bool
  hash_fits obj none = true
  hash_fits obj (some label) = label == object_set_hash sha1_hex obj.annotations

  -- The guard of the second loop.
  unfoldable pub may_delete : Object → Bool
  unfolding should hash_fits
  may_delete obj =
      should obj annotation_prune
      && (is_zero obj.deletion_timestamp && hash_fits obj (lookup label_hash obj.labels))

  -- The second loop of compareSets: what it appends to toDelete.
  unfoldable pub split_old : ObjectByKey → ObjectByKey → List ObjectKey
  unfolding may_delete
  split_old new [] = []
  split_old new ((k, obj) ∷ existing) =
      let rest = split_old new existing in
      if is_some (lookup k new) then rest else if may_delete obj then k ∷ rest else rest

  -- compareSets: toCreate, toDelete, toUpdate
  unfoldable pub compare_sets :
      ObjectByKey → ObjectByKey → List ObjectKey × List ObjectKey × List ObjectKey
  unfolding split_new split_old sort_object_keys
  compare_sets existing new =
      let (create, update) = split_new existing new in
      (sort_object_keys create, sort_object_keys (split_old new existing), sort_object_keys update)
