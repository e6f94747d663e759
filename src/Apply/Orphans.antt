-- ===== src/Apply/Orphans.antt =====
-- pkg/apply/desiredset_owner.go: the owner that an object's annotations name, and the deletion of an
-- object whose owner is gone. With newObj and get of desiredset_process.go and desiredset_crud.go.
pub mod Purge
use nah.Prelude.{
  Text, codes, cut, text_eq, ◌==◌, if◌then◌else◌, List, [], ◌∷◌, ◌++◌, Option, none, some, Bool,
  true, false, not,
}
use nah.Error.{
  Error, message, api, err_owner_not_found, Result, ok, err, ◌>>=◌, Reason, not_found, has_reason,
}
use nah.Kube.{GroupVersionKind, Object, Client, at}
use nah.Apply.Labels.{label_gvk, label_name, label_namespace}

-- strings.Split at the separator into exactly two parts.
abbrev pub only_two : Text → Text → Option (Text × Text) → Option (Text × Text)
only_two first rest none = some (first, rest)
only_two first rest (some more) = none

abbrev pub two_parts : Text → Option (Text × Text) → Option (Text × Text)
two_parts sep none = none
two_parts sep (some (first, rest)) = only_two first rest (cut rest sep)

abbrev pub group_and_version : Text → Option (Text × Text) → Text × Text
group_and_version whole none = (whole, [])
group_and_version whole (some parts) = parts

abbrev pub kind_separator : Text
kind_separator = codes ", Kind="

abbrev pub parsed : Text → Option (Text × Text) → Result GroupVersionKind
parsed label none = err (message (codes "invalid GVK format: " ++ label))
parsed label (some (first, kind)) =
    let (group, version) = group_and_version first (cut first (codes "/")) in
    ok (record { group = group; version = version; kind = kind })

-- getGVK
unfoldable pub get_gvk : Text → Result GroupVersionKind
get_gvk label = parsed label (two_parts kind_separator (cut label kind_separator))

-- What Scheme().New answers for a kind.
pub data Known : Type 0 where
  registered_type : Known
  not_registered : Known
  new_failed : Error → Known

-- apply.newObj for one object: an unregistered kind is read without a type.
unfoldable pub new_obj : Known → Option Error
new_obj registered_type = none
new_obj not_registered = none
new_obj (new_failed e) = some e

module _ {W : Type 0} (client : Client W) (scheme_new : GroupVersionKind → Known)
    (gvk_for_object : Object → Result GroupVersionKind) where
  abbrev pub read_as : Option Error → GroupVersionKind → Text → Text → W → Result Object × W
  read_as none gvk namespace name w = client.get gvk namespace name w
  read_as (some e) gvk namespace name w = (err e, w)

  -- apply.get without an object
  unfoldable pub get : GroupVersionKind → Text → Text → W → Result Object × W
  unfolding new_obj
  get gvk namespace name w = read_as (new_obj (scheme_new gvk)) gvk namespace name w

  abbrev pub read_owner : Object → Result GroupVersionKind → W → Result Object × W
  read_owner obj (err e) w = (err e, w)
  read_owner obj (ok gvk) w =
      get gvk (at label_namespace obj.annotations) (at label_name obj.annotations) w

  -- FindOwner
  unfoldable pub find_owner : Option Object → W → Result Object × W
  unfolding get get_gvk
  find_owner none w = (err err_owner_not_found, w)
  find_owner (some obj) w =
      if at label_gvk obj.annotations == []
      then (err err_owner_not_found, w)
      else read_owner obj (get_gvk (at label_gvk obj.annotations)) w

  abbrev pub delete_as : Result GroupVersionKind → Object → W → Option Error × W
  delete_as (err e) obj w = (some e, w)
  delete_as (ok gvk) obj w = client.delete gvk obj.namespace obj.name w

  -- err == ErrOwnerNotFound
  abbrev pub is_owner_not_found : Error → Bool
  is_owner_not_found err_owner_not_found = true
  is_owner_not_found (message t) = false
  is_owner_not_found (api r) = false
  is_owner_not_found Error.err_replace = false
  is_owner_not_found Error.err_ignore = false
  is_owner_not_found (Error.wrapped t e) = false
  is_owner_not_found (Error.joined es) = false

  abbrev pub purge_after : Object → Result Object × W → Option Error × W
  purge_after obj (ok owner, w) = (none, w)
  purge_after obj (err e, w) =
      if has_reason not_found e
      then delete_as (gvk_for_object obj) obj w
      else if is_owner_not_found e
      then (none, w)
      else (some e, w)

  -- PurgeOrphan
  unfoldable pub purge_orphan : Option Object → W → Option Error × W
  unfolding find_owner
  purge_orphan none w = (none, w)
  purge_orphan (some obj) w = purge_after obj (find_owner (some obj) w)
