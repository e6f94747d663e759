-- ===== src/Typed.antt =====
-- pkg/typed: maps in the order of their keys, and the map of a slice; with Merge of
-- pkg/data/generic.go. Keys are strings.
pub mod Sorted
use nah.Prelude.{
  Text, Map, lookup, insert, keys, text_eq, sort_by, List, [], ◌∷◌, ◌++◌, Option, none, some,
}

module _ {ℓ} {V : Type ℓ} where
  -- The inner loop of Concat
  unfoldable pub put_entries : Map Text V → Map Text V → Map Text V
  unfolding insert
  put_entries result [] = result
  put_entries result ((k, v) ∷ m) = put_entries (insert k v result) m

  -- Concat
  unfoldable pub concat_maps : List (Map Text V) → Map Text V → Map Text V
  unfolding put_entries
  concat_maps [] result = result
  concat_maps (m ∷ ms) result = concat_maps ms (put_entries result m)

  -- SortedKeys
  unfoldable pub sorted_keys : Map Text V → List Text
  unfolding sort_by
  sorted_keys m = sort_by (λ k. k) (keys m)

  abbrev pub entry_of : Text → Option V → List (Text × V)
  entry_of k none = []
  entry_of k (some v) = (k, v) ∷ []

  abbrev pub entries_at : Map Text V → List Text → List (Text × V)
  entries_at m [] = []
  entries_at m (k ∷ ks) = entry_of k (lookup k m) ++ entries_at m ks

  abbrev pub values_of : List (Text × V) → List V
  values_of [] = []
  values_of ((k, v) ∷ es) = v ∷ values_of es

  -- Sorted
  unfoldable pub sorted : Map Text V → List (Text × V)
  unfolding sorted_keys lookup
  sorted m = entries_at m (sorted_keys m)

  -- SortedValues and SortedValuesByKey
  unfoldable pub sorted_values : Map Text V → List V
  unfolding sorted
  sorted_values m = values_of (sorted m)

  -- GenericMap.Merge: never nil, since Concat is not
  unfoldable pub merge : Map Text V → Map Text V → Map Text V
  unfolding concat_maps
  merge g from = concat_maps (g ∷ from ∷ []) []

-- MapSlice
unfoldable pub map_slice {ℓ κ} : {T : Type ℓ} {K : Type κ} → List T → (T → K) → List K
map_slice [] mapper = []
map_slice (v ∷ vs) mapper = mapper v ∷ map_slice vs mapper
