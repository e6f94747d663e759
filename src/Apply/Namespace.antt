-- ===== src/Apply/Namespace.antt =====
-- pkg/apply/desiredset_process.go: the namespaces of the desired objects of one kind, which are the
-- values of a map by key. `range` over the map visits each key that it had at the start, unless
-- the key is gone by then; what is added meanwhile needs no further change.
pub mod Cleared
pub mod Moved
use nah.Prelude.{
  Text, Map, lookup, insert, delete, keys, ◌==◌, text_eq, if◌then◌else◌, List, [], ◌∷◌, Option,
  none, some, Bool, true, false, not,
}
use nah.Kube.{Object}
use nah.Apply.ObjectSet.{ObjectKey, ObjectByKey, object_key_eq}

abbrev pub under : Text → ObjectKey → ObjectKey
under namespace k = record k { namespace = namespace }

abbrev pub set_namespace : Text → Object → Object
set_namespace namespace obj = record obj { namespace = namespace }

-- delete(objs, k); k.Namespace = namespace; objs[k] = v, where v is there
abbrev pub moved : Text → ObjectKey → Option Object → ObjectByKey → ObjectByKey
moved namespace k none objs = objs
moved namespace k (some v) objs =
    insert (under namespace k) (set_namespace namespace v) (delete k objs)

unfoldable pub adjust_keys : Text → List ObjectKey → ObjectByKey → ObjectByKey
adjust_keys namespace [] objs = objs
adjust_keys namespace (k ∷ ks) objs =
    adjust_keys namespace ks
      (if not (k.namespace == []) then objs else moved namespace k (lookup k objs) objs)

-- adjustNamespace, at the default namespace
unfoldable pub adjust_namespace : Text → ObjectByKey → ObjectByKey
unfolding adjust_keys
adjust_namespace default objs = adjust_keys default (keys objs) objs

unfoldable pub clear_keys : List ObjectKey → ObjectByKey → ObjectByKey
clear_keys [] objs = objs
clear_keys (k ∷ ks) objs =
    clear_keys ks (if k.namespace == [] then objs else moved [] k (lookup k objs) objs)

-- clearNamespace
unfoldable pub clear_namespace : ObjectByKey → ObjectByKey
unfolding clear_keys
clear_namespace objs = clear_keys (keys objs) objs
