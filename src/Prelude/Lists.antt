-- ===== src/Prelude/Lists.antt =====
-- Lists measured by native numbers, membership tests and the lemmas that the components share.
use Prim.Native.Nat.{ℕ, zero, suc, ◌+◌, min}
use mathlib.Core.Path.{◌≡◌, refl}
use mathlib.Core.Bool.{Bool, true, false, ◌||◌, ◌&&◌}
use mathlib.Core.List.{List, [], ◌∷◌, ◌++◌}
use native.Mathlib.Omega.{arith}
use nah.Prelude.Tests.{if◌then◌else◌, HasEq, ◌==◌}

module _ {ℓ} {A : Type ℓ} where
  abbrev pub length : List A → ℕ
  length [] = 0
  length (x ∷ xs) = suc (length xs)

  abbrev pub take : ℕ → List A → List A
  take zero xs = []
  take (suc n) [] = []
  take (suc n) (x ∷ xs) = x ∷ take n xs

  abbrev pub drop : ℕ → List A → List A
  drop zero xs = xs
  drop (suc n) [] = []
  drop (suc n) (x ∷ xs) = drop n xs

  -- The elements that pass a test, in order.
  abbrev pub select : (A → Bool) → List A → List A
  select p [] = []
  select p (x ∷ xs) = let rest = select p xs in if p x then x ∷ rest else rest

  abbrev pub any : (A → Bool) → List A → Bool
  any p [] = false
  any p (x ∷ xs) = p x || any p xs

  pub length-append : (xs ys : List A) → length (xs ++ ys) ≡ length xs + length ys
  length-append [] ys = omega arith
  length-append (x ∷ xs) ys = omega (arith, length-append xs ys)

  pub length-take : (n : ℕ) (xs : List A) → length (take n xs) ≡ min n (length xs)
  length-take zero xs = omega arith
  length-take (suc n) [] = omega arith
  length-take (suc n) (x ∷ xs) = omega (arith, length-take n xs)

  pub any-append : (p : A → Bool) (xs ys : List A) → any p (xs ++ ys) ≡ (any p xs || any p ys)
  any-append p [] ys = refl
  any-append p (x ∷ xs) ys = ground (arith, any-append p xs ys)

module _ {ℓ κ} {A : Type ℓ} {B : Type κ} where
  abbrev pub flat : (A → List B) → List A → List B
  flat f [] = []
  flat f (x ∷ xs) = f x ++ flat f xs

-- What both branches have, a conditional has.
pub if_inv {ℓ κ} :
    {A : Type ℓ} (P : A → Type κ) (b : Bool) (x y : A) → P x → P y → P (if b then x else y)
if_inv P true x y p q = p
if_inv P false x y p q = q

-- A property of every element, which computes to a tuple.
abbrev pub All {ℓ κ} : {A : Type ℓ} → (A → Type κ) → List A → Type κ
All P [] = Unit
All P (x ∷ xs) = P x × All P xs

module _ {ℓ} {A : Type ℓ} ⦃e : HasEq A⦄ where
  -- slices.Contains
  abbrev pub contains : List A → A → Bool
  contains [] a = false
  contains (x ∷ xs) a = x == a || contains xs a

  pub contains-append :
      (xs ys : List A) (a : A) → contains (xs ++ ys) a ≡ (contains xs a || contains ys a)
  contains-append [] ys a = refl
  contains-append (x ∷ xs) ys a = ground (arith, contains-append xs ys a)

  pub contains-select :
      (p : A → Bool) (xs : List A) (a : A) → contains (select p xs) a ≡ (contains xs a && p a)
  contains-select p [] a = refl
  contains-select p (x ∷ xs) a = ground (arith, contains-select p xs a)

-- for _, x := range xs { s = step(s, x) }
abbrev pub fold {ℓ κ} : {A : Type ℓ} {S : Type κ} → (S → A → S) → S → List A → S
fold f s [] = s
fold f s (x ∷ xs) = fold f (f s x) xs

-- An invariant of the body is an invariant of the loop.
pub fold_inv {ℓ κ μ} :
    {A : Type ℓ} {S : Type κ} (P : S → Type μ) (f : S → A → S)
    → ((s : S) (x : A) → P s → P (f s x))
    → (xs : List A) (s : S) → P s
    → P (fold f s xs)
fold_inv P f keep [] s h = h
fold_inv P f keep (x ∷ xs) s h = fold_inv P f keep xs (f s x) (keep s x h)

module _ {ℓ} {A : Type ℓ} ⦃e : HasEq A⦄ where
  -- No element occurs twice.
  abbrev pub IsNodup : List A → Type 0
  IsNodup [] = Unit
  IsNodup (x ∷ xs) = (contains xs x ≡ false) × IsNodup xs

  pub select-IsNodup : (p : A → Bool) (xs : List A) → IsNodup xs → IsNodup (select p xs)
  select-IsNodup p [] h = tt
  select-IsNodup p (x ∷ xs) h = ground (arith, contains-select p xs x, select-IsNodup p xs h.1)

  pub append-IsNodup :
      (xs ys : List A)
      → IsNodup xs
      → IsNodup ys
      → ((a : A) → contains xs a ≡ true → contains ys a ≡ false)
      → IsNodup (xs ++ ys)
  append-IsNodup [] ys h k apart = k
  append-IsNodup (x ∷ xs) ys h k apart = (
    ground (arith, contains-append xs ys x, apart x),
    append-IsNodup xs ys h.1 k (λ a m. ground (arith, apart a)),
  )

module _ {ℓ} {A : Type ℓ} ⦃e : HasEq A⦄ where
  -- len(xs) > 0 && xs[0] == a
  abbrev pub head_is : List A → A → Bool
  head_is [] a = false
  head_is (x ∷ xs) a = x == a

-- xs[1:], where there is an element
abbrev pub tail_of {ℓ} : {A : Type ℓ} → List A → List A
tail_of [] = []
tail_of (x ∷ xs) = xs
