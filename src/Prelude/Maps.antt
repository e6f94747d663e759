-- ===== src/Prelude/Maps.antt =====
-- Go's maps as association lists. The order of the entries is the order in which `range` visits
-- them: a theorem about every list is a theorem about every iteration order.
use mathlib.Core.Path.{◌≡◌, refl, sym, ◌∙◌, subst}
use mathlib.Core.Bool.{true, false, ◌||◌}
use mathlib.Core.List.{List, [], ◌∷◌}
use mathlib.Core.Option.{Option, none, some}
use native.Mathlib.Omega.{arith}
use nah.Prelude.Tests.{if◌then◌else◌, HasEq, ◌==◌, is_some, ==_of_ne}
use nah.Prelude.Lists.{contains, All}

abbrev pub Map {ℓ κ} : Type ℓ → Type κ → Type (ℓ ⊔ κ)
Map K V = List (K × V)

module _ {ℓ κ} {K : Type ℓ} {V : Type κ} where
  abbrev pub keys : Map K V → List K
  keys [] = []
  keys ((k, v) ∷ m) = k ∷ keys m

module _ {ℓ κ} {K : Type ℓ} {V : Type κ} ⦃e : HasEq K⦄ where
  -- v, ok := m[k]
  unfoldable pub lookup : K → Map K V → Option V
  lookup key [] = none
  lookup key ((here, value) ∷ rest) = if here == key then some value else lookup key rest

  -- delete(m, k)
  unfoldable pub delete : K → Map K V → Map K V
  delete key [] = []
  delete key ((here, value) ∷ entries) =
      let rest = delete key entries in if here == key then rest else (here, value) ∷ rest

  -- m[k] = v
  unfoldable pub insert : K → V → Map K V → Map K V
  insert key new [] = (key, new) ∷ []
  insert key new ((here, old) ∷ rest) =
      if here == key then (here, new) ∷ rest else (here, old) ∷ insert key new rest

  pub lookup-delete :
      (k j : K) (m : Map K V) → lookup j (delete k m) ≡ (if k == j then none else lookup j m)
  unfolding lookup delete
  lookup-delete k j [] = ground arith
  lookup-delete k j ((i, w) ∷ m) = ground (arith, lookup-delete k j m)

  pub lookup-insert :
      (k j : K) (v : V) (m : Map K V)
      → lookup j (insert k v m) ≡ (if k == j then some v else lookup j m)
  unfolding lookup insert
  lookup-insert key other new [] = refl
  lookup-insert key other new ((here, old) ∷ rest) =
      ground (arith, lookup-insert key other new rest)

  pub is_some-lookup : (k : K) (m : Map K V) → is_some (lookup k m) ≡ contains (keys m) k
  unfolding lookup
  is_some-lookup k [] = refl
  is_some-lookup k ((j, w) ∷ m) = ground (arith, is_some-lookup k m)

  -- An entry is found behind one with a key that is not among those behind it.
  pub lookup-cons_fresh :
      (k j : K) (v w : V) (m : Map K V)
      → contains (keys m) j ≡ false
      → lookup k m ≡ some v
      → lookup k ((j, w) ∷ m) ≡ some v
  unfolding lookup
  lookup-cons_fresh k j v w m fresh h = ground (arith, is_some-lookup j m)

  pub lookup-cons_self : (k : K) (v : V) (m : Map K V) → lookup k ((k, v) ∷ m) ≡ some v
  unfolding lookup
  lookup-cons_self k v m = ground arith

  -- Neighbours with different keys may change places.
  pub lookup-swap :
      (i j k : K) (v w : V) (m : Map K V)
      → (i == j) ≡ false
      → lookup k ((i, v) ∷ (j, w) ∷ m) ≡ lookup k ((j, w) ∷ (i, v) ∷ m)
  unfolding lookup
  lookup-swap i j k v w m h = ground arith

  -- What holds of all keys holds of one that is found.
  pub All-keys :
      (P : K → Type 0) (k : K) (m : Map K V) → All P (keys m) → is_some (lookup k m) ≡ true → P k
  unfolding lookup
  All-keys P k [] h f = cc
  All-keys P k ((j, v) ∷ m) h f = elim (e.same j k) [
    | yes p ↦ subst P p h.0
    | no n ↦ All-keys P k m h.1 (sym (rw (==_of_ne j k n) refl) ∙ f)
  ]

  -- A map that `range` visits has each key once.
  abbrev pub IsMap : Map K V → Type 0
  IsMap [] = Unit
  IsMap ((k, v) ∷ m) = (contains (keys m) k ≡ false) × IsMap m

  contains-keys-insert :
      (k j : K) (v : V) (m : Map K V)
      → contains (keys (insert k v m)) j ≡ (k == j || contains (keys m) j)
  unfolding insert
  contains-keys-insert k j v [] = refl
  contains-keys-insert k j v ((i, w) ∷ m) = ground (arith, contains-keys-insert k j v m)

  pub insert-IsMap : (k : K) (v : V) (m : Map K V) → IsMap m → IsMap (insert k v m)
  unfolding insert
  insert-IsMap k v [] h = (refl, tt)
  insert-IsMap k v ((j, w) ∷ m) h =
      ground (arith, contains-keys-insert k j v m, insert-IsMap k v m h.1)

  contains-keys-delete :
      (k j : K) (m : Map K V)
      → contains (keys (delete k m)) j ≡ (if k == j then false else contains (keys m) j)
  unfolding delete
  contains-keys-delete k j [] = ground arith
  contains-keys-delete k j ((i, w) ∷ m) = ground (arith, contains-keys-delete k j m)

  pub delete-IsMap : (k : K) (m : Map K V) → IsMap m → IsMap (delete k m)
  unfolding delete
  delete-IsMap k [] h = tt
  delete-IsMap k ((j, w) ∷ m) h = ground (arith, contains-keys-delete k j m, delete-IsMap k m h.1)

pub ruleset map_laws = (lookup-insert, lookup-delete)
