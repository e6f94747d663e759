-- ===== src/Apply/ObjectSet.antt =====
-- pkg/apply/objectset: a set of objects by kind and key, with the order in which kinds came.
pub mod Index
use nah.Prelude.{
  Text, codes, Map, lookup, insert, keys, HasEq, ◌==◌, text_discrete, text_eq, sort_by, select,
  is_some, List, [], ◌∷◌, ◌++◌, map, Option, none, some, Bool, true, false, not, ◌≡◌, if◌then◌else◌,
  contains, String, ◌&&◌, arith,
}
use nah.Error.{Error, Result, ok, err, ◌>>=◌}
use nah.Kube.{
  GroupVersionKind, GroupKind, gvk_eq, gvk_discrete, gk_eq, gk_discrete, group_kind, Object,
}

pub record ObjectKey : Type 0 where
  pub name : Text
  pub namespace : Text

object_key_fields : Discrete ObjectKey
unfolding text_discrete
object_key_fields = hlevel text_discrete

unfoldable pub object_key_discrete : Discrete ObjectKey
unfolding object_key_fields
object_key_discrete = object_key_fields

instance abbrev pub object_key_eq : HasEq ObjectKey
object_key_eq = record { same = object_key_discrete }

pub key_eq-fields : (j k : ObjectKey) → (j == k) ≡ (j.name == k.name && j.namespace == k.namespace)
unfolding object_key_discrete
key_eq-fields j k = ground arith

-- ObjectKey.String
unfoldable pub key_string : ObjectKey → Text
key_string o = if o.namespace == [] then o.name else o.namespace ++ codes "/" ++ o.name

abbrev pub ObjectByKey : Type 0
ObjectByKey = Map ObjectKey Object

abbrev pub key_of : Object → ObjectKey
key_of obj = record { name = obj.name; namespace = obj.namespace }

-- A missing map reads as an empty one.
abbrev pub or_no_objects : Option ObjectByKey → ObjectByKey
or_no_objects none = []
or_no_objects (some m) = m

-- ObjectByGVK.Add and ObjectByGK.Add
unfoldable pub add_by {ℓ} :
    {K : Type ℓ} ⦃e : HasEq K⦄ → K → Object → Map K ObjectByKey → Map K ObjectByKey
add_by k obj o = insert k (insert (key_of obj) obj (or_no_objects (lookup k o))) o

pub record ObjectSet : Type 0 where
  pub objects : Map GroupVersionKind ObjectByKey
  pub objects_by_gk : Map GroupKind ObjectByKey
  pub order : List Object
  pub gvk_order : List GroupVersionKind
  pub gvk_seen : Map GroupVersionKind Bool

abbrev pub empty_set : ObjectSet
empty_set = record { objects = []; objects_by_gk = []; order = []; gvk_order = []; gvk_seen = [] }

abbrev is_true : Option Bool → Bool
is_true none = false
is_true (some b) = b

-- o.gvkSeen[gvk]
abbrev pub seen : ObjectSet → GroupVersionKind → Bool
seen o gvk = is_true (lookup gvk o.gvk_seen)

-- The part of add behind the lookup of the kind.
unfoldable pub add_as : GroupVersionKind → Object → ObjectSet → ObjectSet
unfolding add_by
add_as gvk obj o = record {
  objects = add_by gvk obj o.objects;
  objects_by_gk = add_by (group_kind gvk) obj o.objects_by_gk;
  order = o.order ++ obj ∷ [];
  gvk_order = if seen o gvk then o.gvk_order else o.gvk_order ++ gvk ∷ [];
  gvk_seen = if seen o gvk then o.gvk_seen else insert gvk true o.gvk_seen;
}

-- ObjectSet.Contains
unfoldable pub set_contains : ObjectSet → GroupKind → ObjectKey → Bool
set_contains o gk key = is_some (lookup key (or_no_objects (lookup gk o.objects_by_gk)))

-- o.ObjectsByGVK()[gvk]
unfoldable pub objects_of : ObjectSet → GroupVersionKind → ObjectByKey
objects_of o gvk = or_no_objects (lookup gvk o.objects)

module _ (gvk_for_object : Object → Result GroupVersionKind) where
  -- ObjectSet.add; a nil object is skipped
  unfoldable pub add : Option Object → ObjectSet → Result ObjectSet
  unfolding add_as
  add none o = ok o
  add (some obj) o = gvk_for_object obj >>= λ gvk. ok (add_as gvk obj o)

  -- ObjectSet.Add
  unfoldable pub add_all : List (Option Object) → ObjectSet → Result ObjectSet
  unfolding add
  add_all [] o = ok o
  add_all (obj ∷ objs) o = add obj o >>= λ o'. add_all objs o'

  -- NewObjectSet
  unfoldable pub new_object_set : List (Option Object) → Result ObjectSet
  unfolding add_all
  new_object_set objs = add_all objs empty_set

-- ObjectSet.GVKOrder
module _ (gvk_string : GroupVersionKind → Text) where
  unfoldable pub order_of_kinds : ObjectSet → List GroupVersionKind → List GroupVersionKind
  order_of_kinds o known =
      o.gvk_order ++ sort_by gvk_string (select (λ gvk. not (seen o gvk)) known)
