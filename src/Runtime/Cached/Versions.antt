-- ===== src/Runtime/Cached/Versions.antt =====
-- pkg/runtime/cached.go: which of two resource versions is newer.
use nah.Prelude.{
  Text, text_ltb, nat_eq, ◌==◌, ltb, length, [], ◌∷◌, Option, some, false, ℕ, ◌+◌, ◌-◌, ◌*◌, ◌≤◌,
  ◌<◌, ◌≡◌, refl, arith, All, Bool-cases, inl, inr, sym, eq_of_==, ==_self,
}
use nah.Runtime.Cached.{ℤ, pos, newer}

-- A byte from '0' to '9'.
abbrev pub IsDigit : ℕ → Type 0
IsDigit c = (48 ≤ c) × (c ≤ 57)

abbrev pub horner : ℕ → Text → ℕ
horner acc [] = acc
horner acc (c ∷ s) = horner (acc * 10 + (c - 48)) s

-- The number that decimal digits write.
abbrev pub decimal : Text → ℕ
decimal s = horner 0 s

horner-lt :
    (a b : ℕ) (s t : Text)
    → All IsDigit s
    → All IsDigit t
    → length s ≡ length t
    → a < b
    → horner a s < horner b t
horner-lt a b [] [] ds dt e h = h
horner-lt a b [] (d ∷ t) ds dt e h = absurd (omega (arith, e))
horner-lt a b (c ∷ s) [] ds dt e h = absurd (omega (arith, e))
horner-lt a b (c ∷ s) (d ∷ t) ds dt e h =
    horner-lt (a * 10 + (c - 48)) (b * 10 + (d - 48)) s t ds.1 dt.1 (omega (arith, e))
      (omega (arith, ds.0, dt.0))

text_ltb-horner :
    (a : ℕ) (s t : Text)
    → All IsDigit s
    → All IsDigit t
    → length s ≡ length t
    → text_ltb s t ≡ ltb (horner a s) (horner a t)
unfolding text_ltb
text_ltb-horner a [] [] ds dt e = ground arith
text_ltb-horner a [] (d ∷ t) ds dt e = absurd (omega (arith, e))
text_ltb-horner a (c ∷ s) [] ds dt e = absurd (omega (arith, e))
text_ltb-horner a (c ∷ s) (d ∷ t) ds dt e =
    let lengths : length s ≡ length t = omega (arith, e) in
    ground (
      arith,
      text_ltb-horner (a * 10 + (c - 48)) s t ds.1 dt.1 lengths,
      horner-lt (a * 10 + (c - 48)) (a * 10 + (d - 48)) s t ds.1 dt.1 lengths,
      horner-lt (a * 10 + (d - 48)) (a * 10 + (c - 48)) t s dt.1 ds.1 (sym lengths),
    )

-- Of two versions in decimal digits the newer one is that of the greater number, although they are
-- compared as strings where they have the same length. strconv.Atoi reads both of them if neither
-- is out of the range of an int.
pub newer_lem :
    (atoi : Text → Option ℤ) (s t : Text)
    → All IsDigit s
    → All IsDigit t
    → atoi s ≡ some (pos (decimal s))
    → atoi t ≡ some (pos (decimal t))
    → newer atoi s t ≡ ltb (decimal s) (decimal t)
unfolding newer
newer_lem atoi s t ds dt rs rt = elim (Bool-cases (length s == length t)) [
  | inl same ↦ rw same (text_ltb-horner 0 s t ds dt (eq_of_== (length s) (length t) same))
  | inr other ↦ rw (other, rs, rt) refl
]

text_ltb_irrefl : (s : Text) → text_ltb s s ≡ false
unfolding text_ltb
text_ltb_irrefl [] = refl
text_ltb_irrefl (c ∷ s) = ground (arith, text_ltb_irrefl s)

-- No version is newer than itself.
pub newer_irrefl : (atoi : Text → Option ℤ) (s : Text) → newer atoi s s ≡ false
unfolding newer
newer_irrefl atoi s = rw (==_self (length s)) (text_ltb_irrefl s)
