-- ===== src/Apply/ObjectSet/Index.antt =====
-- The index by group and kind, and the order of kinds, agree with the objects by kind.
use nah.Prelude.{
  IsNodup, append-IsNodup, select-IsNodup, sort_by-IsNodup, subst, Bool-cases, Text, Map, lookup,
  insert, lookup-insert, HasEq, ◌==◌, is_some, List, [], ◌∷◌, Option, none, some, Bool, true, false,
  ◌≡◌, refl, arith, if◌then◌else◌, contains, contains-append, ◌||◌, ◌&&◌, contains-select,
  contains-sort_by, not, sort_by, select, inl, inr,
}
use nah.Error.{Result, ok, bind-eq_ok, ok-injective}
use nah.Kube.{GroupVersionKind, GroupKind, gvk_eq, gk_eq, group_kind, Object}
use nah.Apply.ObjectSet.{
  ObjectKey, object_key_eq, key_of, ObjectByKey, or_no_objects, add_by, ObjectSet, empty_set, seen,
  add_as, set_contains, objects_of, add, add_all, new_object_set, order_of_kinds,
}

-- What a map of maps has under two keys after Add.
lookup-add_by {ℓ} :
    {K : Type ℓ} ⦃e : HasEq K⦄ (k j : K) (obj : Object) (key : ObjectKey) (o : Map K ObjectByKey)
    → lookup key (or_no_objects (lookup j (add_by k obj o)))
      ≡ (if k == j && key_of obj == key then some obj else lookup key (or_no_objects (lookup j o)))
unfolding add_by
lookup-add_by k j obj key o = ground (
  arith,
  lookup-insert k j (insert (key_of obj) obj (or_no_objects (lookup k o))) o,
  lookup-insert (key_of obj) key obj (or_no_objects (lookup k o)),
)

-- The index knows exactly the objects that the set has under some version of the kind, and the
-- order has each kind that was seen, once.
pub record IsIndexed (o : ObjectSet) : Type 0 where
  pub indexed :
      (gvk : GroupVersionKind) (key : ObjectKey)
      → is_some (lookup key (objects_of o gvk)) ≡ true
      → set_contains o (group_kind gvk) key ≡ true
  pub backed :
      (gk : GroupKind) (key : ObjectKey)
      → set_contains o gk key ≡ true
      → (gvk : GroupVersionKind) × (group_kind gvk ≡ gk)
        × (is_some (lookup key (objects_of o gvk)) ≡ true)
  pub ordered : (gvk : GroupVersionKind) → seen o gvk ≡ contains o.gvk_order gvk
  pub once : IsNodup o.gvk_order

pub empty-IsIndexed : IsIndexed empty_set
unfolding objects_of set_contains lookup
empty-IsIndexed = record {
  indexed = λ gvk key h. cc;
  backed = λ gk key h. cc;
  ordered = λ gvk. refl;
  once = tt;
}

module _ (gvk : GroupVersionKind) (obj : Object) {o : ObjectSet} (v : IsIndexed o) where
  add_as-indexed :
      (g : GroupVersionKind) (key : ObjectKey)
      → is_some (lookup key (objects_of (add_as gvk obj o) g)) ≡ true
      → set_contains (add_as gvk obj o) (group_kind g) key ≡ true
  unfolding add_as objects_of set_contains
  add_as-indexed g key h = ground (
    arith,
    lookup-add_by gvk g obj key o.objects,
    lookup-add_by (group_kind gvk) (group_kind g) obj key o.objects_by_gk,
    v.indexed g key,
  )

  -- What the set had stays, though perhaps as another object.
  objects_of-add_as :
      (g : GroupVersionKind) (key : ObjectKey)
      → is_some (lookup key (objects_of o g)) ≡ true
      → is_some (lookup key (objects_of (add_as gvk obj o) g)) ≡ true
  unfolding add_as objects_of
  objects_of-add_as g key h = ground (arith, lookup-add_by gvk g obj key o.objects)

  objects_of-add_as_self : is_some (lookup (key_of obj) (objects_of (add_as gvk obj o) gvk)) ≡ true
  unfolding add_as objects_of
  objects_of-add_as_self = ground (arith, lookup-add_by gvk gvk obj (key_of obj) o.objects)

  set_contains-add_as :
      (gk : GroupKind) (key : ObjectKey)
      → (group_kind gvk == gk && key_of obj == key) ≡ false
      → set_contains (add_as gvk obj o) gk key ≡ true
      → set_contains o gk key ≡ true
  unfolding add_as set_contains
  set_contains-add_as gk key other h =
      ground (arith, lookup-add_by (group_kind gvk) gk obj key o.objects_by_gk)

  add_as-backed :
      (gk : GroupKind) (key : ObjectKey)
      → set_contains (add_as gvk obj o) gk key ≡ true
      → (g : GroupVersionKind) × (group_kind g ≡ gk)
        × (is_some (lookup key (objects_of (add_as gvk obj o) g)) ≡ true)
  add_as-backed gk key h = elim (Bool-cases (group_kind gvk == gk && key_of obj == key)) [
    | inl new ↦ (
      gvk,
      ground arith,
      subst (λ k. is_some (lookup k (objects_of (add_as gvk obj o) gvk)) ≡ true) (ground arith)
          objects_of-add_as_self,
    )
    | inr other ↦
        let (g, e, had) = v.backed gk key (set_contains-add_as gk key other h) in
        (g, e, objects_of-add_as g key had)
  ]

  add_as-ordered :
      (g : GroupVersionKind) → seen (add_as gvk obj o) g ≡ contains (add_as gvk obj o).gvk_order g
  unfolding add_as
  add_as-ordered g = ground (
    arith,
    lookup-insert gvk g true o.gvk_seen,
    v.ordered g,
    v.ordered gvk,
    contains-append o.gvk_order (gvk ∷ []) g,
  )

  add_as-once : IsNodup (add_as gvk obj o).gvk_order
  unfolding add_as
  add_as-once = elim (Bool-cases (seen o gvk)) [
    | inl old ↦ rw old v.once
    | inr new ↦
        rw (new, if◌then◌else◌)
          (append-IsNodup o.gvk_order (gvk ∷ []) v.once (refl, tt)
            (λ a m. ground (arith, v.ordered gvk)))
  ]

  add_as-IsIndexed : IsIndexed (add_as gvk obj o)
  add_as-IsIndexed = record {
    indexed = add_as-indexed;
    backed = add_as-backed;
    ordered = add_as-ordered;
    once = add_as-once;
  }

module _ (gvk_for_object : Object → Result GroupVersionKind) where
  add_all-IsIndexed :
      (objs : List (Option Object)) (o : ObjectSet) {o' : ObjectSet}
      → IsIndexed o
      → add_all gvk_for_object objs o ≡ ok o'
      → IsIndexed o'
  unfolding add_all add
  add_all-IsIndexed [] o v h = subst IsIndexed (ok-injective h) v
  add_all-IsIndexed (none ∷ objs) o v h = add_all-IsIndexed objs o v h
  add_all-IsIndexed (some obj ∷ objs) o v h =
      let (o₁, added, rest) = bind-eq_ok (add gvk_for_object (some obj) o) _ h in
      let (gvk, found, e) = bind-eq_ok (gvk_for_object obj) _ added in
      add_all-IsIndexed objs o₁ (subst IsIndexed (ok-injective e) (add_as-IsIndexed gvk obj v)) rest

-- Whatever objects a set is built of, its index by group and kind has an object exactly if the set
-- has it under a version of that kind, and its order has each kind that was seen, once.
pub new_object_set-IsIndexed :
    (gvk_for_object : Object → Result GroupVersionKind) (objs : List (Option Object))
    (o : ObjectSet)
    → new_object_set gvk_for_object objs ≡ ok o
    → IsIndexed o
unfolding new_object_set
new_object_set-IsIndexed f objs o h = add_all-IsIndexed f objs empty_set empty-IsIndexed h

-- The kinds that are worked on are those of the set and the known ones, each once.
pub order_of_kinds_lem :
    (gvk_string : GroupVersionKind → Text) (o : ObjectSet) (known : List GroupVersionKind)
    → IsIndexed o
    → IsNodup known
    → IsNodup (order_of_kinds gvk_string o known)
      × ((g : GroupVersionKind)
          → contains (order_of_kinds gvk_string o known) g ≡ (seen o g || contains known g))
unfolding order_of_kinds
order_of_kinds_lem gvk_string o known v h =
    let new : GroupVersionKind → Bool = λ gvk. not (seen o gvk) in
    (
      append-IsNodup o.gvk_order _ v.once
          (sort_by-IsNodup gvk_string (select new known) (select-IsNodup new known h))
          λ a m. ground (
            arith,
            v.ordered a,
            contains-sort_by gvk_string (select new known) a,
            contains-select new known a,
          ),
      λ g. ground (
        arith,
        v.ordered g,
        contains-append o.gvk_order (sort_by gvk_string (select new known)) g,
        contains-sort_by gvk_string (select new known) g,
        contains-select new known g,
      ),
    )
