-- ===== src/Apply/Namespace/Moved.antt =====
-- pkg/apply/desiredset_process.go: what adjustNamespace leaves under each key.
use nah.Prelude.{
  Text, lookup, delete, keys, lookup-insert, lookup-delete, is_some-lookup, IsMap, ◌==◌, text_eq,
  if◌then◌else◌, List, [], ◌∷◌, Option, none, some, Bool, true, false, ◌&&◌, ◌≡◌, refl, arith,
  contains, is_some, eq_of_==, ap, Option-cases, Bool-cases, inl, inr, ◌||◌, subst, ◌∙◌, sym,
  IsNodup,
}
use nah.Kube.{Object}
use nah.Apply.ObjectSet.{ObjectKey, ObjectByKey, object_key_eq, key_eq-fields}
use nah.Apply.Namespace.{under, set_namespace, moved, adjust_keys, adjust_namespace}

pub lookup-moved :
    (d : Text) (k j : ObjectKey) (o : Option Object) (m : ObjectByKey)
    → lookup j (moved d k o m) ≡ (
        if is_some o && under d k == j
        then elim o [ none ↦ none | some v ↦ some (set_namespace d v) ]
        else if is_some o && k == j
        then none
        else lookup j m)
lookup-moved d k j none m = refl
lookup-moved d k j (some v) m =
    ground
      (arith, lookup-insert (under d k) j (set_namespace d v) (delete k m), lookup-delete k j m)

-- A key of another namespace than the default one is left alone.
adjust_keys-elsewhere :
    (d : Text) (ks : List ObjectKey) (j : ObjectKey) (m : ObjectByKey)
    → (j.namespace == []) ≡ false
    → (j.namespace == d) ≡ false
    → lookup j (adjust_keys d ks m) ≡ lookup j m
unfolding adjust_keys
adjust_keys-elsewhere d [] j m h g = refl
adjust_keys-elsewhere d (k ∷ ks) j m h g = ground (
  arith,
  adjust_keys-elsewhere d ks j m,
  adjust_keys-elsewhere d ks j (moved d k (lookup k m) m),
  lookup-moved d k j (lookup k m) m,
  key_eq-fields (under d k) j,
  key_eq-fields k j,
)

-- No key without a namespace is left of those that are visited.
adjust_keys-bare :
    (d : Text) (ks : List ObjectKey) (j : ObjectKey) (m : ObjectByKey)
    → (d == []) ≡ false
    → (j.namespace == []) ≡ true
    → lookup j (adjust_keys d ks m) ≡ (if contains ks j then none else lookup j m)
unfolding adjust_keys
adjust_keys-bare d [] j m h g = refl
adjust_keys-bare d (k ∷ ks) j m h g = ground (
  arith,
  adjust_keys-bare d ks j m,
  adjust_keys-bare d ks j (moved d k (lookup k m) m),
  lookup-moved d k j (lookup k m) m,
  key_eq-fields (under d k) j,
  key_eq-fields k j,
)

-- What the default namespace gets: an object of the same name without a namespace comes first.
abbrev pub preferred : Text → Option Object → Option Object → Option Object
preferred d none before = before
preferred d (some v) before = some (set_namespace d v)

-- Where the key without a namespace is moved, and where another one is.
preferred-moved :
    (d : Text) (same rest : Bool) (o bare before : Option Object)
    → (same ≡ true → o ≡ bare)
    → (same ≡ true → rest ≡ false)
    → let bare' = if is_some o && same then none else bare in
      let before' = if is_some o && same then preferred d o before else before in
      (if rest then preferred d bare' before' else before')
      ≡ (if same || rest then preferred d bare before else before)
preferred-moved d true rest o bare before h g =
    rw (g refl, h refl) (elim (Option-cases bare) [ inl p ↦ rw p refl | inr (v, p) ↦ rw p refl ])
preferred-moved d false rest none bare before h g = refl
preferred-moved d false rest (some v) bare before h g = refl

and_false : (b : Bool) → (b && false) ≡ false
and_false true = refl
and_false false = refl

only_there :
    (d : Text) (b : Bool) (o before : Option Object)
    → (if is_some o && b
        then elim o [ none ↦ none | some v ↦ some (set_namespace d v) ]
        else if is_some o && false
        then none
        else before)
      ≡ (if is_some o && b then preferred d o before else before)
only_there d b none before = refl
only_there d b (some v) before = refl

only_gone :
    (d : Text) (b : Bool) (o before : Option Object)
    → (if is_some o && false
        then elim o [ none ↦ none | some v ↦ some (set_namespace d v) ]
        else if is_some o && b
        then none
        else before)
      ≡ (if is_some o && b then none else before)
only_gone d b none before = refl
only_gone d b (some v) before = refl

module _ (d : Text) (j k : ObjectKey) (m : ObjectByKey) (some_default : (d == []) ≡ false)
    (in_default : (j.namespace == d) ≡ true) (bare : (k.namespace == []) ≡ true) where
  default_differs : (k.namespace == j.namespace) ≡ false
  default_differs = ground arith

  is_default : (d == j.namespace) ≡ true
  is_default = ground arith

  moved_there : (under d k == j) ≡ (k == under [] j)
  moved_there =
      key_eq-fields (under d k) j ∙ rw (is_default, key_eq-fields k (under [] j), bare) refl

  not_there : (k == j) ≡ false
  not_there = key_eq-fields k j ∙ rw default_differs (and_false (k.name == j.name))

  not_bare : (under d k == under [] j) ≡ false
  not_bare = key_eq-fields (under d k) (under [] j) ∙ rw some_default (and_false (k.name == j.name))

  lookup-moved_default : lookup j (moved d k (lookup k m) m) ≡ (
      if is_some (lookup k m) && k == under [] j
      then preferred d (lookup k m) (lookup j m)
      else lookup j m)
  lookup-moved_default =
      lookup-moved d k j (lookup k m) m
      ∙ rw (moved_there, not_there) (only_there d (k == under [] j) (lookup k m) (lookup j m))

  lookup-moved_bare :
      lookup (under [] j) (moved d k (lookup k m) m)
      ≡ (if is_some (lookup k m) && k == under [] j then none else lookup (under [] j) m)
  lookup-moved_bare =
      lookup-moved d k (under [] j) (lookup k m) m
      ∙ rw not_bare (only_gone d (k == under [] j) (lookup k m) (lookup (under [] j) m))

adjust_keys-default :
    (d : Text) (ks : List ObjectKey) (j : ObjectKey) (m : ObjectByKey)
    → (d == []) ≡ false
    → (j.namespace == d) ≡ true
    → IsNodup ks
    → lookup j (adjust_keys d ks m) ≡ (
        if contains ks (under [] j)
        then preferred d (lookup (under [] j) m) (lookup j m)
        else lookup j m)
unfolding adjust_keys
adjust_keys-default d [] j m h g u = refl
adjust_keys-default d (k ∷ ks) j m h g u = elim (Bool-cases (k.namespace == [])) [
  | inl bare ↦
      rw
        (
          bare,
          adjust_keys-default d ks j (moved d k (lookup k m) m) h g u.1,
          lookup-moved_default d j k m h g bare,
          lookup-moved_bare d j k m h g bare,
        )
        (preferred-moved d (k == under [] j) (contains ks (under [] j)) (lookup k m)
          (lookup (under [] j) m) (lookup j m)
          (λ p. ap (λ i. lookup i m) (eq_of_== k (under [] j) p))
          (λ p. subst (λ i. contains ks i ≡ false) (eq_of_== k (under [] j) p) u.0))
  | inr full ↦
      rw
        (
          full,
          adjust_keys-default d ks j m h g u.1,
          key_eq-fields k (under [] j),
          full,
          and_false (k.name == j.name),
        )
        refl
]

IsMap-keys : (m : ObjectByKey) → IsMap m → IsNodup (keys m)
IsMap-keys [] h = tt
IsMap-keys ((k, v) ∷ m) h = (h.0, IsMap-keys m h.1)

unmoved :
    (d : Text) (o before : Option Object)
    → (if is_some o then preferred d o before else before) ≡ preferred d o before
unmoved d none before = refl
unmoved d (some v) before = refl

gone : (o : Option Object) → (if is_some o then none else o) ≡ none
gone none = refl
gone (some v) = refl

-- With a default namespace, adjustNamespace leaves no object without a namespace. Each of those is
-- under the same name in the default namespace, with that as its own, where it takes the place of
-- an object that was there; every other object stays as it is.
pub adjust_namespace_lem :
    (default : Text) (objs : ObjectByKey) (j : ObjectKey)
    → IsMap objs
    → (default == []) ≡ false
    → lookup j (adjust_namespace default objs) ≡ (
        if j.namespace == []
        then none
        else if j.namespace == default
        then preferred default (lookup (under [] j) objs) (lookup j objs)
        else lookup j objs)
unfolding adjust_namespace
adjust_namespace_lem default objs j map_of h = elim (Bool-cases (j.namespace == [])) [
  | inl bare ↦
      adjust_keys-bare default (keys objs) j objs h bare
      ∙ rw (bare, sym (is_some-lookup j objs)) (gone (lookup j objs))
  | inr full ↦ elim (Bool-cases (j.namespace == default)) [
    | inl there ↦
        adjust_keys-default default (keys objs) j objs h there (IsMap-keys objs map_of)
        ∙ rw (full, there, sym (is_some-lookup (under [] j) objs))
            (unmoved default (lookup (under [] j) objs) (lookup j objs))
    | inr elsewhere ↦
        adjust_keys-elsewhere default (keys objs) j objs full elsewhere ∙ rw (full, elsewhere) refl
  ]
]
