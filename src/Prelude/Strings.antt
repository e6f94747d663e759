-- ===== src/Prelude/Strings.antt =====
-- Go strings as lists of bytes, with the functions of package strings that the program calls.
use Prim.Native.Nat.{ℕ}
use Prim.Native.Char.{code}
use Prim.Native.String.{String}
use mathlib.Core.Path.{◌≡◌, refl, ap₂}
use mathlib.Core.Bool.{Bool, true, false, ◌||◌, ◌&&◌}
use mathlib.Core.List.{List, [], ◌∷◌, ◌++◌}
use mathlib.Core.Option.{Option, none, some}
use native.Mathlib.Omega.{arith}
use native.Mathlib.Decide.{ℕ_discrete}
use nah.Prelude.Tests.{if◌then◌else◌, HasEq, ◌==◌, ltb, is_some}
use nah.Prelude.Lists.{contains}

abbrev pub Text : Type 0
Text = List ℕ

-- The bytes of a literal.
abbrev pub codes : String → Text
codes String.[] = []
codes (String.◌∷◌ first rest) = code first ∷ codes rest

instance abbrev pub nat_eq : HasEq ℕ
nat_eq = record { same = ℕ_discrete }

pub list_discrete {ℓ} : {A : Type ℓ} → Discrete A → Discrete (List A)
list_discrete d [] [] = yes refl
list_discrete d [] (y ∷ ys) = no (λ h. cc)
list_discrete d (x ∷ xs) [] = no (λ h. cc)
list_discrete d (x ∷ xs) (y ∷ ys) = elim (d x y) [
  | yes p ↦ elim (list_discrete d xs ys) [ yes q ↦ yes (ap₂ ◌∷◌ p q) | no n ↦ no (λ h. n (cc h)) ]
  | no n ↦ no (λ h. n (cc h))
]

-- Decides by bytes.
unfoldable pub text_discrete : Discrete Text
unfolding list_discrete ℕ_discrete
text_discrete = list_discrete ℕ_discrete

instance abbrev pub text_eq : HasEq Text
text_eq = record { same = text_discrete }

-- s < t on strings: the order of their bytes.
unfoldable pub text_ltb : Text → Text → Bool
text_ltb [] [] = false
text_ltb [] (y ∷ ys) = true
text_ltb (x ∷ xs) [] = false
text_ltb (x ∷ xs) (y ∷ ys) = let rest = text_ltb xs ys in ltb x y || (x == y && rest)

-- What follows the prefix `p`, where `s` starts with it.
unfoldable pub strip : Text → Text → Option Text
strip [] s = some s
strip (p ∷ ps) [] = none
strip (p ∷ ps) (c ∷ s) = if p == c then strip ps s else none

-- strings.HasPrefix(s, p)
unfoldable pub has_prefix : Text → Text → Bool
unfolding strip
has_prefix s p = is_some (strip p s)

abbrev or_whole : Text → Option Text → Text
or_whole s none = s
or_whole s (some r) = r

-- strings.TrimPrefix(s, p)
unfoldable pub trim_prefix : Text → Text → Text
unfolding strip
trim_prefix s p = or_whole s (strip p s)

abbrev cons_before : ℕ → Option (Text × Text) → Option (Text × Text)
cons_before c none = none
cons_before c (some (a, b)) = some (c ∷ a, b)

-- strings.Cut(s, sep) for a separator that is not empty: `none` is `found == false`.
unfoldable pub cut : Text → Text → Option (Text × Text)
unfolding strip
cut [] sep = none
cut (c ∷ s) sep =
    let later = cut s sep in
    elim (strip sep (c ∷ s)) [ none ↦ cons_before c later | some r ↦ some ([], r) ]

pub strip-append : (p s : Text) → strip p (p ++ s) ≡ some s
unfolding strip
strip-append [] s = refl
strip-append (c ∷ p) s = ground (arith, strip-append p s)

-- A text in which the first byte of the separator does not occur ends where the separator stands.
pub cut-append :
    (a b sep : Text) (c : ℕ)
    → contains a c ≡ false
    → cut (a ++ (c ∷ sep) ++ b) (c ∷ sep) ≡ some (a, b)
unfolding cut strip
cut-append [] b sep c h = ground (arith, strip-append sep b)
cut-append (x ∷ a) b sep c h = ground (arith, cut-append a b sep c)

pub cut_absent : (a sep : Text) (c : ℕ) → contains a c ≡ false → cut a (c ∷ sep) ≡ none
unfolding cut strip
cut_absent [] sep c h = refl
cut_absent (x ∷ a) sep c h = ground (arith, cut_absent a sep c)
