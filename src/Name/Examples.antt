-- ===== src/Name/Examples.antt =====
-- pkg/name/name.go at a digest of zeros.
use nah.Prelude.{
  Text, codes, length, List, [], ◌∷◌, some, ℕ, zero, suc, ◌≤◌, ◌<◌, ◌≡◌, refl, arith, ◌⊎◌,
}
use nah.Name.{join, safe_concat_name_with, cut_name}
use nah.Name.Length.{safe_concat_name_with_lem}

zeros : ℕ → Text
zeros zero = []
zeros (suc n) = b'0' ∷ zeros n

length-zeros : (n : ℕ) → length (zeros n) ≡ n
unfolding zeros
length-zeros zero = refl
length-zeros (suc n) = omega (arith, length-zeros n)

abbrev parts : List Text
parts = codes "alpha" ∷ codes "beta" ∷ codes "gamma" ∷ []

safe_concat_name_with_lem_example :
    (made : Text) × (safe_concat_name_with (λ t. zeros 64) 12 (codes "-") parts ≡ some made)
    × (((length (join (codes "-") parts) < 12) × (made ≡ join (codes "-") parts))
        ⊎ ((12 ≤ length (join (codes "-") parts)) × (length made ≡ 11)))
    × (length made < 12)
safe_concat_name_with_lem_example =
    safe_concat_name_with_lem (λ t. zeros 64) (λ t. length-zeros 64) 12 (codes "-") parts refl
      (omega arith)

-- The parts are cut behind "alpha", and the digest's first five digits are set behind them.
cut_example :
    safe_concat_name_with (λ t. zeros 64) 12 (codes "-") parts ≡ some (codes "alpha-00000")
unfolding safe_concat_name_with join cut_name zeros
cut_example = refl
