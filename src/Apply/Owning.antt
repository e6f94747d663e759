-- ===== src/Apply/Owning.antt =====
-- pkg/apply/desiredset_process.go: the owner reference of the desired objects of one kind. As in
-- Namespace, `range` visits the keys that the map had at the start.
pub mod Reach
use nah.Prelude.{
  Text, codes, lookup, insert, delete, keys, any, ◌==◌, text_eq, if◌then◌else◌, List, [], ◌∷◌, ◌++◌,
  Option, none, some, Bool, true, false, not, ◌&&◌,
}
use nah.Error.{Error, message, Result, ok, err, ◌>>=◌}
use nah.Kube.{GroupVersionKind, OwnerReference, Object}
use nah.Apply.ObjectSet.{ObjectKey, ObjectByKey, object_key_eq}
use nah.Apply.Namespace.{under, set_namespace}
use nah.Apply.Labels.{annotation_prune}
use nah.Apply.Compare.{should}

-- Whether one of the references of an object is to a UID.
abbrev pub refers_to : Text → Object → Bool
refers_to uid obj = any (λ of. uid == of.uid) obj.owner_references

-- The test shouldSet, and what is appended under it.
unfoldable pub with_reference : OwnerReference → Object → Object
unfolding should
with_reference ref v =
    if not (refers_to ref.uid v) && (not (ref.uid == []) && should v annotation_prune)
    then record v { owner_references = v.owner_references ++ ref ∷ [] }
    else v

-- The end of the body of the loop.
unfoldable pub place :
    Bool → Object → OwnerReference → ObjectKey → Object → ObjectByKey → ObjectByKey
unfolding with_reference
place assign_ns owner ref k v objs =
    let assigned = with_reference ref (if assign_ns then set_namespace owner.namespace v else v) in
    if assign_ns
    then insert (under owner.namespace k) assigned (delete k (insert k assigned objs))
    else insert k assigned objs

-- The body behind its first test, for a kind that has namespaces or not.
unfoldable pub assign_one :
    Bool → Bool → Object → OwnerReference → ObjectKey → Object → ObjectByKey → ObjectByKey
unfolding place
assign_one owner_namespaced namespaced owner ref k v objs =
    let assign_ns = namespaced && k.namespace == [] in
    let elsewhere =
      namespaced
      && (not (k.namespace == []) && (not (k.namespace == owner.namespace) && owner_namespaced)) in
    if elsewhere then objs else place assign_ns owner ref k v objs

-- IsNamespaced and apiutil.GVKForObject ask the API server and the scheme; group_version is the
-- string of a group and version.
module _ (is_namespaced : GroupVersionKind → Result Bool)
    (gvk_for_object : Object → Result GroupVersionKind)
    (group_version : GroupVersionKind → Text) where
  -- The body of the loop at a key that is there.
  unfoldable pub assign_at :
      Bool
      → Object
      → OwnerReference
      → GroupVersionKind
      → ObjectKey
      → Option Object
      → ObjectByKey
      → Result ObjectByKey
  unfolding assign_one
  assign_at owner_namespaced owner ref gvk k none objs = ok objs
  assign_at owner_namespaced owner ref gvk k (some v) objs = do
    namespaced ← is_namespaced gvk
    ok (
        if owner_namespaced && not namespaced
        then objs
        else assign_one owner_namespaced namespaced owner ref k v objs)

  unfoldable pub assign_keys :
      Bool
      → Object
      → OwnerReference
      → GroupVersionKind
      → List ObjectKey
      → ObjectByKey
      → Result ObjectByKey
  unfolding assign_at
  assign_keys owner_namespaced owner ref gvk [] objs = ok objs
  assign_keys owner_namespaced owner ref gvk (k ∷ ks) objs =
      assign_at owner_namespaced owner ref gvk k (lookup k objs) objs >>= λ objs'.
      assign_keys owner_namespaced owner ref gvk ks objs'

  abbrev pub reference_to : Object → GroupVersionKind → OwnerReference
  reference_to owner gvk = record {
    api_version = group_version gvk;
    kind = gvk.kind;
    name = owner.name;
    uid = owner.uid;
  }

  -- assignOwnerReference
  unfoldable pub assign_owner_reference :
      Option Object → GroupVersionKind → ObjectByKey → Result ObjectByKey
  unfolding assign_keys
  assign_owner_reference none gvk objs =
      err (message (codes "no owner set to assign owner reference"))
  assign_owner_reference (some owner) gvk objs = do
    owner_gvk ← gvk_for_object owner
    owner_namespaced ← is_namespaced owner_gvk
    assign_keys owner_namespaced owner (reference_to owner owner_gvk) gvk (keys objs) objs
