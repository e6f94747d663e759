-- ===== src/Prelude/Sort.antt =====
-- sort.Slice with a test that compares the strings of the elements, as a stable insertion sort.
use mathlib.Core.Path.{◌≡◌, refl, ◌∙◌, sym, ap₂}
use mathlib.Core.Logic.{inl, inr}
use mathlib.Core.Bool.{true, false}
use mathlib.Core.List.{List, [], ◌∷◌, Perm}
use mathlib.Core.List.Perm
use native.Mathlib.Omega.{arith}
use nah.Prelude.Tests.{if◌then◌else◌, HasEq, Bool-cases}
use nah.Prelude.Lists.{IsNodup, contains, All}
use nah.Prelude.Strings.{Text, text_ltb, nat_eq}

pub text_ltb_irrefl : (a : Text) → text_ltb a a ≡ false
unfolding text_ltb
text_ltb_irrefl [] = refl
text_ltb_irrefl (x ∷ a) = ground (arith, text_ltb_irrefl a)

pub text_ltb_asym : (a b : Text) → text_ltb a b ≡ true → text_ltb b a ≡ false
unfolding text_ltb
text_ltb_asym [] [] h = refl
text_ltb_asym [] (y ∷ b) h = refl
text_ltb_asym (x ∷ a) [] h = cc
text_ltb_asym (x ∷ a) (y ∷ b) h = ground (arith, text_ltb_asym a b)

-- "Not less" is transitive.
pub text_ltb_trans :
    (a b c : Text) → text_ltb b a ≡ false → text_ltb c b ≡ false → text_ltb c a ≡ false
unfolding text_ltb
text_ltb_trans [] [] [] h k = refl
text_ltb_trans [] [] (z ∷ c) h k = refl
text_ltb_trans [] (y ∷ b) [] h k = cc
text_ltb_trans [] (y ∷ b) (z ∷ c) h k = refl
text_ltb_trans (x ∷ a) [] [] h k = cc
text_ltb_trans (x ∷ a) [] (z ∷ c) h k = cc
text_ltb_trans (x ∷ a) (y ∷ b) [] h k = cc
text_ltb_trans (x ∷ a) (y ∷ b) (z ∷ c) h k = ground (arith, text_ltb_trans a b c)

-- Two strings of which neither is less are the same.
pub text_ltb_antisym : (a b : Text) → text_ltb a b ≡ false → text_ltb b a ≡ false → a ≡ b
unfolding text_ltb
text_ltb_antisym [] [] h k = refl
text_ltb_antisym [] (y ∷ b) h k = cc
text_ltb_antisym (x ∷ a) [] h k = cc
text_ltb_antisym (x ∷ a) (y ∷ b) h k = ground (arith, text_ltb_antisym a b)

module _ {ℓ} {A : Type ℓ} (name : A → Text) where
  unfoldable pub place : A → List A → List A
  place x [] = x ∷ []
  place x (y ∷ ys) =
      let rest = place x ys in if text_ltb (name y) (name x) then y ∷ rest else x ∷ y ∷ ys

  unfoldable pub sort_by : List A → List A
  unfolding place
  sort_by [] = []
  sort_by (x ∷ xs) = place x (sort_by xs)

  -- No element comes before one that is less.
  abbrev pub IsSorted : List A → Type 0
  IsSorted [] = Unit
  IsSorted (x ∷ xs) = All (λ y. text_ltb (name y) (name x) ≡ false) xs × IsSorted xs

  All-place :
      (b : Text) (x : A) (ys : List A)
      → text_ltb (name x) b ≡ false
      → All (λ y. text_ltb (name y) b ≡ false) ys
      → All (λ y. text_ltb (name y) b ≡ false) (place x ys)
  unfolding place
  All-place b x [] h all = (h, tt)
  All-place b x (y ∷ ys) h all = ground (arith, All-place b x ys h all.1)

  All-le :
      (a b : Text) (ys : List A)
      → text_ltb b a ≡ false
      → All (λ y. text_ltb (name y) b ≡ false) ys
      → All (λ y. text_ltb (name y) a ≡ false) ys
  All-le a b [] h all = tt
  All-le a b (y ∷ ys) h all = (text_ltb_trans a b (name y) h all.0, All-le a b ys h all.1)

  place-IsSorted : (x : A) (ys : List A) → IsSorted ys → IsSorted (place x ys)
  unfolding place
  place-IsSorted x [] s = (tt, tt)
  place-IsSorted x (y ∷ ys) s = elim (Bool-cases (text_ltb (name y) (name x))) [
    | inl less ↦ rw less (
      All-place (name y) x ys (text_ltb_asym (name y) (name x) less) s.0,
      place-IsSorted x ys s.1,
    )
    | inr ge ↦ rw ge ((ge, All-le (name x) (name y) ys ge s.0), s)
  ]

  pub sort_by-IsSorted : (xs : List A) → IsSorted (sort_by xs)
  unfolding sort_by
  sort_by-IsSorted [] = tt
  sort_by-IsSorted (x ∷ xs) = place-IsSorted x (sort_by xs) (sort_by-IsSorted xs)

  place-perm : (x : A) (ys : List A) → Perm (place x ys) (x ∷ ys)
  unfolding place
  place-perm x [] = Perm.refl _
  place-perm x (y ∷ ys) = elim (Bool-cases (text_ltb (name y) (name x))) [
    | inl less ↦ rw less (Perm.trans (Perm.cons y (place-perm x ys)) (Perm.swap x y ys))
    | inr ge ↦ rw ge (Perm.refl _)
  ]

  pub sort_by-perm : (xs : List A) → Perm (sort_by xs) xs
  unfolding sort_by
  sort_by-perm [] = Perm.refl _
  sort_by-perm (x ∷ xs) = Perm.trans (place-perm x (sort_by xs)) (Perm.cons x (sort_by-perm xs))

module _ {ℓ} {A : Type ℓ} ⦃e : HasEq A⦄ (name : A → Text) where
  contains-place :
      (x : A) (ys : List A) (a : A) → contains (place name x ys) a ≡ contains (x ∷ ys) a
  unfolding place
  contains-place x [] a = refl
  contains-place x (y ∷ ys) a = ground (arith, contains-place x ys a)

  pub contains-sort_by : (xs : List A) (a : A) → contains (sort_by name xs) a ≡ contains xs a
  unfolding sort_by
  contains-sort_by [] a = refl
  contains-sort_by (x ∷ xs) a =
      ground (arith, contains-place x (sort_by name xs) a, contains-sort_by xs a)

  place-IsNodup :
      (x : A) (ys : List A) → contains ys x ≡ false → IsNodup ys → IsNodup (place name x ys)
  unfolding place
  place-IsNodup x [] m h = (refl, tt)
  place-IsNodup x (y ∷ ys) m h = ground (arith, contains-place x ys y, place-IsNodup x ys)

  pub sort_by-IsNodup : (xs : List A) → IsNodup xs → IsNodup (sort_by name xs)
  unfolding sort_by
  sort_by-IsNodup [] h = tt
  sort_by-IsNodup (x ∷ xs) h =
      place-IsNodup x (sort_by name xs) (contains-sort_by xs x ∙ h.0) (sort_by-IsNodup xs h.1)

  sorted_head :
      (x y : A) (ys : List A)
      → All (λ z. text_ltb (name z) (name y) ≡ false) ys
      → contains (y ∷ ys) x ≡ true
      → text_ltb (name x) (name y) ≡ false
  sorted_head x y [] all m = ground (arith, text_ltb_irrefl (name x))
  sorted_head x y (z ∷ ys) all m =
      ground (arith, text_ltb_irrefl (name x), sorted_head x y ys all.1)

  -- Two sorted lists of the same elements, each once, are the same list, if the elements differ in
  -- their strings.
  pub sorted_unique :
      (xs ys : List A)
      → ((a b : A) → contains xs a ≡ true → contains xs b ≡ true → name a ≡ name b → a ≡ b)
      → IsSorted name xs
      → IsSorted name ys
      → IsNodup xs
      → IsNodup ys
      → ((a : A) → contains xs a ≡ contains ys a)
      → xs ≡ ys
  sorted_unique [] [] inj s t d e same = refl
  sorted_unique [] (y ∷ ys) inj s t d e same = absurd (ground (arith, same y))
  sorted_unique (x ∷ xs) [] inj s t d e same = absurd (ground (arith, same x))
  sorted_unique (x ∷ xs) (y ∷ ys) inj s t d e same =
      let in_ys : contains (y ∷ ys) x ≡ true = sym (same x) ∙ ground arith in
      let in_xs : contains (x ∷ xs) y ≡ true = same y ∙ ground arith in
      let heads : x ≡ y = inj x y (ground arith) in_xs (
        text_ltb_antisym (name x) (name y) (sorted_head x y ys t.0 in_ys)
          (sorted_head y x xs s.0 in_xs)) in
      ap₂ ◌∷◌ heads (
        sorted_unique xs ys (λ a b m n. inj a b (ground arith) (ground arith)) s.1 t.1 d.1 e.1
          (λ a. ground (arith, same a, heads)))
