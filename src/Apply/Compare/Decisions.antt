-- ===== src/Apply/Compare/Decisions.antt =====
-- Which keys compareSets puts into which list.
use nah.Prelude.{
  Text, lookup, text_eq, is_some, List, [], ◌∷◌, Option, none, some, Bool, false, not, ◌&&◌,
  contains, contains-sort_by, is_some-lookup, IsMap, IsNodup, sort_by-IsNodup, sort_by-IsSorted,
  IsSorted, ◌≡◌, arith, ◌∙◌,
}
use nah.Kube.{Object}
use nah.Apply.ObjectSet.{ObjectKey, ObjectByKey, object_key_eq, key_string}
use nah.Apply.Labels.{annotation_create, annotation_update}
use nah.Apply.Compare.{should, split_new, split_old, may_delete, compare_sets, sort_object_keys}

abbrev pub wants : Text → Option Object → Bool
wants label none = false
wants label (some obj) = should obj label

split_new-create :
    (existing new : ObjectByKey) (k : ObjectKey)
    → IsMap new
    → contains (split_new existing new).0 k
      ≡ (not (is_some (lookup k existing)) && wants annotation_create (lookup k new))
unfolding split_new lookup
split_new-create existing [] k h = ground arith
split_new-create existing ((j, obj) ∷ new) k h =
    ground (arith, split_new-create existing new k h.1, is_some-lookup j new)

split_new-update :
    (existing new : ObjectByKey) (k : ObjectKey)
    → IsMap new
    → contains (split_new existing new).1 k
      ≡ (is_some (lookup k existing) && wants annotation_update (lookup k new))
unfolding split_new lookup
split_new-update existing [] k h = ground arith
split_new-update existing ((j, obj) ∷ new) k h =
    ground (arith, split_new-update existing new k h.1, is_some-lookup j new)

-- Nothing is put into a list that is not a key of the map that the loop ranges over.
split_new-IsNodup :
    (existing new : ObjectByKey)
    → IsMap new
    → IsNodup (split_new existing new).0 × IsNodup (split_new existing new).1
unfolding split_new
split_new-IsNodup existing [] h = (tt, tt)
split_new-IsNodup existing ((j, obj) ∷ new) h = ground (
  arith,
  split_new-IsNodup existing new h.1,
  split_new-create existing new j h.1,
  split_new-update existing new j h.1,
  is_some-lookup j new,
)

module _ (sha1_hex : Text → Text) where
  abbrev pub deletable : Option Object → Bool
  deletable none = false
  deletable (some obj) = may_delete sha1_hex obj

  split_old-delete :
      (new existing : ObjectByKey) (k : ObjectKey)
      → IsMap existing
      → contains (split_old sha1_hex new existing) k
        ≡ (not (is_some (lookup k new)) && deletable (lookup k existing))
  unfolding split_old lookup
  split_old-delete new [] k h = ground arith
  split_old-delete new ((j, obj) ∷ existing) k h =
      ground (arith, split_old-delete new existing k h.1, is_some-lookup j existing)

  split_old-IsNodup :
      (new existing : ObjectByKey) → IsMap existing → IsNodup (split_old sha1_hex new existing)
  unfolding split_old
  split_old-IsNodup new [] h = tt
  split_old-IsNodup new ((j, obj) ∷ existing) h = ground (
    arith,
    split_old-IsNodup new existing h.1,
    split_old-delete new existing j h.1,
    is_some-lookup j existing,
  )

  -- A list of keys in order, each once, of exactly the keys that pass a test.
  pub record Lists (test : ObjectKey → Bool) (ks : List ObjectKey) : Type 0 where
    pub exact : (k : ObjectKey) → contains ks k ≡ test k
    pub sorted : IsSorted key_string ks
    pub once : IsNodup ks

  sorted-Lists :
      (test : ObjectKey → Bool) (ks : List ObjectKey)
      → ((k : ObjectKey) → contains ks k ≡ test k)
      → IsNodup ks
      → Lists test (sort_object_keys ks)
  unfolding sort_object_keys
  sorted-Lists test ks exact once = record {
    exact = λ k. contains-sort_by key_string ks k ∙ exact k;
    sorted = sort_by-IsSorted key_string ks;
    once = sort_by-IsNodup key_string ks once;
  }

  abbrev pub to_create : ObjectByKey → ObjectByKey → ObjectKey → Bool
  to_create existing new k =
      not (is_some (lookup k existing)) && wants annotation_create (lookup k new)

  abbrev pub to_delete : ObjectByKey → ObjectByKey → ObjectKey → Bool
  to_delete existing new k = not (is_some (lookup k new)) && deletable (lookup k existing)

  abbrev pub to_update : ObjectByKey → ObjectByKey → ObjectKey → Bool
  to_update existing new k = is_some (lookup k existing) && wants annotation_update (lookup k new)

  -- compareSets lists, in the order of their strings and each once: to create, the desired keys that
  -- do not exist and allow creation; to delete, the existing keys that are not desired, allow
  -- pruning, are not being deleted and carry no hash label or that of their own annotations; to
  -- update, the desired keys that exist and allow an update.
  pub compare_sets_lem :
      (existing new : ObjectByKey)
      → IsMap existing
      → IsMap new
      → Lists (to_create existing new) (compare_sets sha1_hex existing new).0
        × Lists (to_delete existing new) (compare_sets sha1_hex existing new).1
        × Lists (to_update existing new) (compare_sets sha1_hex existing new).2
  unfolding compare_sets
  compare_sets_lem existing new e n =
      let (create_once, update_once) = split_new-IsNodup existing new n in
      (
        sorted-Lists _ _ (λ k. split_new-create existing new k n) create_once,
        sorted-Lists _ _ (λ k. split_old-delete new existing k e)
            (split_old-IsNodup new existing e),
        sorted-Lists _ _ (λ k. split_new-update existing new k n) update_once,
      )
