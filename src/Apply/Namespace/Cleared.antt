-- ===== src/Apply/Namespace/Cleared.antt =====
-- pkg/apply/desiredset_process.go: what clearNamespace leaves under each key.
use nah.Prelude.{
  Text, lookup, keys, is_some-lookup, ◌==◌, text_eq, if◌then◌else◌, List, [], ◌∷◌, Option, none,
  some, Bool, true, false, ◌&&◌, ◌||◌, ◌≡◌, refl, arith, contains, is_some, sym, ap, ◌∙◌, ==_self,
  ==_of_eq, ==_of_ne, Bool-cases, inl, inr, eq_of_==,
}
use nah.Kube.{Object}
use nah.Apply.ObjectSet.{ObjectKey, ObjectByKey, object_key_eq, key_eq-fields}
use nah.Apply.Namespace.{under, set_namespace, moved, clear_keys, clear_namespace}
use nah.Apply.Namespace.Moved.{lookup-moved}

no_second : (a b : Bool) → b ≡ false → (a && b) ≡ false
no_second a b h = ground arith

-- A key with a namespace is neither one without nor made from one.
not_under : (k j : ObjectKey) → (j.namespace == []) ≡ false → (under [] k == j) ≡ false
not_under k j h =
    key_eq-fields (under [] k) j
    ∙ no_second (k.name == j.name) ([] == j.namespace)
        (==_of_ne [] j.namespace (λ p. let same = ==_of_eq j.namespace [] (sym p) in cc))

not_bare :
    (k j : ObjectKey) → (k.namespace == []) ≡ true → (j.namespace == []) ≡ false → (k == j) ≡ false
not_bare k j b h =
    key_eq-fields k j ∙ no_second (k.name == j.name) (k.namespace == j.namespace) (ground arith)

gone-moved :
    (same rest : Bool) (o mine there : Option Object)
    → (same ≡ true → o ≡ mine)
    → (if rest
        then none
        else if is_some o && false
        then there
        else if is_some o && same
        then none
        else mine)
      ≡ (if same || rest then none else mine)
gone-moved same true o mine there h = ground arith
gone-moved true false none mine there h = sym (h refl)
gone-moved true false (some v) mine there h = refl
gone-moved false false none mine there h = refl
gone-moved false false (some v) mine there h = refl

clear_keys-gone :
    (ks : List ObjectKey) (j : ObjectKey) (m : ObjectByKey)
    → (j.namespace == []) ≡ false
    → lookup j (clear_keys ks m) ≡ (if contains ks j then none else lookup j m)
unfolding clear_keys
clear_keys-gone [] j m h = refl
clear_keys-gone (k ∷ ks) j m h = elim (Bool-cases (k.namespace == [])) [
  | inl bare ↦ rw (bare, not_bare k j bare h) (clear_keys-gone ks j m h)
  | inr full ↦
      rw
        (
          full,
          clear_keys-gone ks j (moved [] k (lookup k m) m) h,
          lookup-moved [] k j (lookup k m) m,
          not_under k j h,
        )
        (gone-moved (k == j) (contains ks j) (lookup k m) (lookup j m) _
          (λ p. ap (λ i. lookup i m) (eq_of_== k j p)))
]

-- An object that was under a key with a namespace and the name of j, without its namespace.
abbrev pub IsCleared : ObjectByKey → ObjectKey → Option Object → Type 0
IsCleared objs j found =
    (k : ObjectKey) × (o : Object) × ((k.namespace == []) ≡ false)
    × (k.name ≡ j.name)
    × (lookup k objs ≡ some o)
    × (found ≡ some (set_namespace [] o))

module _ (objs : ObjectByKey) where
  -- What is still there under a key with a namespace was there at the start.
  abbrev IsRest : ObjectByKey → Type 0
  IsRest m =
      (k : ObjectKey) (o : Object)
      → (k.namespace == []) ≡ false
      → lookup k m ≡ some o
      → lookup k objs ≡ some o

  moved-IsRest :
      (i : ObjectKey) (found : Option Object) (m : ObjectByKey)
      → IsRest m
      → IsRest (moved [] i found m)
  moved-IsRest i none m rest k o full there = rest k o full there
  moved-IsRest i (some v) m rest k o full there =
      let now : (if i == k then none else lookup k m) ≡ some o =
        rw (lookup-moved [] i k (some v) m, not_under i k full) at there in
      elim (Bool-cases (i == k)) [
        | inl same ↦ let gone : none ≡ some o = rw same at now in cc
        | inr other ↦ rest k o full (rw other at now)
      ]

  -- The object that is moved, or the one that was there.
  moved-IsCleared :
      (i j : ObjectKey) (found : Option Object) (m : ObjectByKey)
      → (i.namespace == []) ≡ false
      → (j.namespace == []) ≡ true
      → lookup i m ≡ found
      → IsRest m
      → IsCleared objs j (lookup j m)
      → IsCleared objs j (lookup j (moved [] i found m))
  moved-IsCleared i j none m full bare at_i rest before = before
  moved-IsCleared i j (some v) m full bare at_i rest before =
      let apart : (i == j) ≡ false =
        ==_of_ne i j (λ p. let b : (i.namespace == []) ≡ true = rw p bare in cc) in
      elim (Bool-cases (under [] i == j)) [
        | inl same ↦ (
          i,
          v,
          full,
          ap (λ (k : ObjectKey). k.name) (eq_of_== (under [] i) j same),
          rest i v full at_i,
          lookup-moved [] i j (some v) m ∙ rw same refl,
        )
        | inr other ↦ rw (lookup-moved [] i j (some v) m, other, apart) before
      ]

  arrives-IsCleared :
      (i : ObjectKey) (found : Option Object) (m : ObjectByKey)
      → (i.namespace == []) ≡ false
      → is_some found ≡ true
      → lookup i m ≡ found
      → IsRest m
      → IsCleared objs (under [] i) (lookup (under [] i) (moved [] i found m))
  arrives-IsCleared i none m full there at_i rest = cc
  arrives-IsCleared i (some v) m full there at_i rest = (
    i,
    v,
    full,
    refl,
    rest i v full at_i,
    lookup-moved [] i (under [] i) (some v) m ∙ rw (==_self (under [] i)) refl,
  )

  clear_keys-IsCleared :
      (ks : List ObjectKey) (j : ObjectKey) (m : ObjectByKey)
      → (j.namespace == []) ≡ true
      → IsRest m
      → IsCleared objs j (lookup j m)
      → IsCleared objs j (lookup j (clear_keys ks m))
  unfolding clear_keys
  clear_keys-IsCleared [] j m bare rest before = before
  clear_keys-IsCleared (i ∷ ks) j m bare rest before = elim (Bool-cases (i.namespace == [])) [
    | inl kept ↦ rw kept (clear_keys-IsCleared ks j m bare rest before)
    | inr full ↦ rw full (
        clear_keys-IsCleared ks j (moved [] i (lookup i m) m) bare
          (moved-IsRest i (lookup i m) m rest)
          (moved-IsCleared i j (lookup i m) m full bare refl rest before))
  ]

abbrev no_text : Text
no_text = []

moved-other :
    (i k : ObjectKey) (o : Option Object) (m : ObjectByKey)
    → (k.namespace == []) ≡ false
    → (i == k) ≡ false
    → lookup k (moved [] i o m) ≡ lookup k m
moved-other i k none m h other = refl
moved-other i k (some v) m h other =
    rw (lookup-moved [] i k (some v) m, not_under i k h, other) refl

clear_keys-arrives :
    (objs : ObjectByKey) (ks : List ObjectKey) (k : ObjectKey) (m : ObjectByKey)
    → (k.namespace == []) ≡ false
    → contains ks k ≡ true
    → is_some (lookup k m) ≡ true
    → IsRest objs m
    → IsCleared objs (under [] k) (lookup (under [] k) (clear_keys ks m))
unfolding clear_keys
clear_keys-arrives objs [] k m h c there rest = cc
clear_keys-arrives objs (i ∷ ks) k m h c there rest = elim (Bool-cases (i == k)) [
  | inl here ↦
      rw (eq_of_== i k here, h)
        (clear_keys-IsCleared objs ks (under [] k) (moved [] k (lookup k m) m) (==_self no_text)
          (moved-IsRest objs k (lookup k m) m rest)
          (arrives-IsCleared objs k (lookup k m) m h there refl rest))
  | inr other ↦
      let later : contains ks k ≡ true = rw other at c in
      elim (Bool-cases (i.namespace == [])) [
        | inl bare ↦ rw bare (clear_keys-arrives objs ks k m h later there rest)
        | inr full ↦ rw full (
            clear_keys-arrives objs ks k (moved [] i (lookup i m) m) h later
              (rw (moved-other i k (lookup i m) m h other) there)
              (moved-IsRest objs i (lookup i m) m rest))
      ]
]

absent_or_gone : (o : Option Object) → (if is_some o then none else o) ≡ none
absent_or_gone none = refl
absent_or_gone (some v) = refl

-- After clearNamespace nothing is left under a key with a namespace that held an object. The key's
-- name without a namespace holds an object whose namespace is empty and that is otherwise one that
-- was under that name in some namespace: also where another object was under the bare name before.
pub clear_namespace_lem :
    (objs : ObjectByKey) (k : ObjectKey)
    → (k.namespace == []) ≡ false
    → is_some (lookup k objs) ≡ true
    → (lookup k (clear_namespace objs) ≡ none)
      × IsCleared objs k (lookup (under [] k) (clear_namespace objs))
unfolding clear_namespace
clear_namespace_lem objs k h there = (
  clear_keys-gone (keys objs) k objs h
      ∙ rw (sym (is_some-lookup k objs)) (absent_or_gone (lookup k objs)),
  clear_keys-arrives objs (keys objs) k objs h (sym (is_some-lookup k objs) ∙ there) there
      (λ i o full p. p),
)
