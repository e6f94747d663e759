-- ===== src/Name/Length.antt =====
-- pkg/name/name.go: how long a name becomes.
use nah.Prelude.{
  Text, length, take, drop, ltb, List, ◌++◌, some, ℕ, ◌-◌, ◌≤◌, ◌<◌, ◌≡◌, refl, arith,
  length-append, length-take, Bool-cases, inl, inr, ◌⊎◌,
}
use nah.Name.{join, first_byte, is_alphanumeric, cut_name, safe_concat_name_with}

module _ (sha256_hex : Text → Text) (digest_length : (t : Text) → length (sha256_hex t) ≡ 64) where
  length-cut_name :
      (limit : ℕ) (sep full : Text)
      → length sep ≡ 1
      → 8 ≤ limit
      → limit ≤ length full
      → length (cut_name sha256_hex limit sep full) ≡ limit - 1
  unfolding cut_name
  length-cut_name limit sep full one enough long =
      let digest = digest_length full in
      elim (Bool-cases (is_alphanumeric (first_byte (drop (limit - 8) full)))) [
        | inl b ↦
            rw
              (
                b,
                length-append (take (limit - 7) full ++ sep) (take 5 (sha256_hex full)),
                length-append (take (limit - 7) full) sep,
                length-take (limit - 7) full,
                length-take 5 (sha256_hex full),
              )
              (omega arith)
        | inr b ↦
            rw
              (
                b,
                length-append (take (limit - 8) full ++ sep) (take 6 (sha256_hex full)),
                length-append (take (limit - 8) full) sep,
                length-take (limit - 8) full,
                length-take 6 (sha256_hex full),
              )
              (omega arith)
      ]

  -- With a separator of one byte and a limit of at least 8, a name is always made, and is shorter
  -- than the limit: it is the joined parts if these are shorter, and one byte short of the limit
  -- otherwise.
  pub safe_concat_name_with_lem :
      (limit : ℕ) (sep : Text) (name : List Text)
      → length sep ≡ 1
      → 8 ≤ limit
      → (made : Text) × (safe_concat_name_with sha256_hex limit sep name ≡ some made)
        × (((length (join sep name) < limit) × (made ≡ join sep name))
            ⊎ ((limit ≤ length (join sep name)) × (length made ≡ limit - 1)))
        × (length made < limit)
  unfolding safe_concat_name_with
  safe_concat_name_with_lem limit sep name one enough =
      elim (Bool-cases (ltb (length (join sep name)) limit)) [
        | inl short ↦
            let less : length (join sep name) < limit = ground arith in
            (join sep name, rw short refl, inl (less, refl), less)
        | inr long ↦
            let most : limit ≤ length (join sep name) = ground arith in
            let cut = length-cut_name limit sep (join sep name) one enough most in
            (
              cut_name sha256_hex limit sep (join sep name),
              ground arith,
              inr (most, cut),
              omega (arith, cut),
            )
      ]
