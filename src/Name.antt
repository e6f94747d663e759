-- ===== src/Name.antt =====
-- pkg/name/name.go: names that are joined from parts and cut to a length.
pub mod Length
mod Examples
use nah.Prelude.{
  Text, codes, length, take, drop, leb, ltb, if◌then◌else◌, List, [], ◌∷◌, ◌++◌, Option, none, some,
  Bool, true, false, ◌&&◌, ◌||◌, ℕ, ◌-◌,
}

-- strings.Join
unfoldable pub join : Text → List Text → Text
join sep [] = []
join sep (part ∷ []) = part
join sep (part ∷ next ∷ parts) = part ++ sep ++ join sep (next ∷ parts)

abbrev pub first_byte : Text → ℕ
first_byte [] = 0
first_byte (c ∷ s) = c

-- 'a' <= c && c <= 'z' || '0' <= c && c <= '9'
abbrev pub is_alphanumeric : ℕ → Bool
is_alphanumeric c = (leb b'a' c && leb c b'z') || (leb b'0' c && leb c b'9')

-- SafeConcatNameWithSeparatorAndLength, where sha256_hex is the hexadecimal SHA-256 digest. The
-- index length-8 panics below 8, which is `none`.
module _ (sha256_hex : Text → Text) where
  unfoldable pub cut_name : ℕ → Text → Text → Text
  cut_name limit sep full =
      if is_alphanumeric (first_byte (drop (limit - 8) full))
      then take (limit - 7) full ++ sep ++ take 5 (sha256_hex full)
      else take (limit - 8) full ++ sep ++ take 6 (sha256_hex full)

  unfoldable pub safe_concat_name_with : ℕ → Text → List Text → Option Text
  unfolding cut_name join
  safe_concat_name_with limit sep name =
      let full = join sep name in
      if ltb (length full) limit
      then some full
      else if ltb limit 8
      then none
      else some (cut_name limit sep full)

  -- SafeConcatName
  unfoldable pub safe_concat_name : List Text → Option Text
  unfolding safe_concat_name_with
  safe_concat_name name = safe_concat_name_with 64 (codes "-") name

  -- SafeHashConcatName: every part is hashed with a zero byte behind it.
  unfoldable pub zero_ended : List Text → Text
  zero_ended [] = []
  zero_ended (part ∷ parts) = part ++ (0 ∷ zero_ended parts)

  unfoldable pub safe_hash_concat_name : List Text → Option Text
  unfolding safe_concat_name zero_ended
  safe_hash_concat_name name = safe_concat_name (name ++ take 8 (sha256_hex (zero_ended name)) ∷ [])
