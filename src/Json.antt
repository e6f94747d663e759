-- ===== src/Json.antt =====
-- JSON values as Go decodes them: map[string]any and []any, with translateObject and ToMapInterface
-- of pkg/data. Encoding and decoding are parameters where they are used.
use nah.Prelude.{Text, text_eq, ◌==◌, if◌then◌else◌, Option, none, some, Bool, ℕ, ◌+◌}
use nah.Error.{Result, ok, err, ◌>>=◌}

-- A number is what was written, until translateObject makes an integer or a float of it.
mutual
  pub data Json : Type 0 where
    null : Json
    boolean : Bool → Json
    number : Text → Json
    integer : Text → Json
    float : Text → Json
    string : Text → Json
    array : Items → Json
    object : Fields → Json

  pub data Items : Type 0 where
    no_items : Items
    item : Json → Items → Items

  pub data Fields : Type 0 where
    no_fields : Fields
    field : Text → Json → Fields → Fields

-- v, ok := m[k]
unfoldable pub get_field : Text → Fields → Option Json
get_field k no_fields = none
get_field k (field j v fs) = if j == k then some v else get_field k fs

-- delete(m, k)
unfoldable pub delete_field : Text → Fields → Fields
delete_field k no_fields = no_fields
delete_field k (field j v fs) =
    let rest = delete_field k fs in if j == k then rest else field j v rest

-- m[k] = v for a key that is there
unfoldable pub replace_field : Text → Json → Fields → Fields
replace_field k new no_fields = no_fields
replace_field k new (field j v fs) =
    let rest = replace_field k new fs in if j == k then field j new fs else field j v rest

-- len(m)
unfoldable pub size : Fields → ℕ
size no_fields = 0
size (field j v fs) = size fs + 1

-- m, _ := v.(map[string]any): anything else is an empty map.
abbrev pub as_map : Option Json → Fields
as_map none = no_fields
as_map (some null) = no_fields
as_map (some (boolean b)) = no_fields
as_map (some (number t)) = no_fields
as_map (some (integer t)) = no_fields
as_map (some (float t)) = no_fields
as_map (some (string t)) = no_fields
as_map (some (array l)) = no_fields
as_map (some (object fs)) = fs

-- Number.Int64, then Number.Float64
abbrev pub number_of : Option Text → Result Text → Result Json
number_of (some i) f = ok (integer i)
number_of none (ok f) = ok (float f)
number_of none (err e) = err e

module _ (int64 : Text → Option Text) (float64 : Text → Result Text) where
  -- translateObject
  unfoldable mutual
    pub translate_object : Json → Result Json
    translate_object null = ok null
    translate_object (boolean b) = ok (boolean b)
    translate_object (number t) = number_of (int64 t) (float64 t)
    translate_object (integer t) = ok (integer t)
    translate_object (float t) = ok (float t)
    translate_object (string t) = ok (string t)
    translate_object (array l) = translate_items l >>= λ l'. ok (array l')
    translate_object (object fs) = translate_fields fs >>= λ fs'. ok (object fs')

    pub translate_items : Items → Result Items
    translate_items no_items = ok no_items
    translate_items (item v l) =
        translate_object v >>= λ v'. translate_items l >>= λ l'. ok (item v' l')

    pub translate_fields : Fields → Result Fields
    translate_fields no_fields = ok no_fields
    translate_fields (field k v fs) =
        translate_object v >>= λ v'. translate_fields fs >>= λ fs'. ok (field k v' fs')
