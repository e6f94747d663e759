-- ===== src/Apply/Patch/Sanitized.antt =====
-- pkg/apply/desiredset_compare.go: no patch sends what only the server sets.
use nah.Prelude.{
  Text, codes, text_eq, text_discrete, ◌==◌, if◌then◌else◌, List, [], ◌∷◌, Option, none, some, Bool,
  true, false, not, ◌≡◌, refl, arith, All, inl, inr, is_some, ◌⊎◌, ap, ◌∙◌, sym, contains, ==_self,
}
use nah.Error.{Result, ok, bind-eq_ok, ok-injective}
use nah.Apply.Labels.{label_applied}
use nah.Json.{
  Json, null, boolean, number, integer, float, string, array, object, Fields, no_fields, field,
  get_field, delete_field, replace_field, as_map,
}
use nah.Apply.Patch.{
  server_fields, metadata, annotations, delete_fields, with_map, remove_metadata_fields,
  without_server_fields, sanitize_patch, empty_maps,
}

-- None of these keys is there.
abbrev pub Lacks : Fields → List Text → Type 0
Lacks fs = All (λ k. get_field k fs ≡ none)

get_field-delete_field :
    (k j : Text) (fs : Fields)
    → get_field j (delete_field k fs) ≡ (if k == j then none else get_field j fs)
unfolding get_field delete_field
get_field-delete_field k j no_fields = ground arith
get_field-delete_field k j (field i v fs) = ground (arith, get_field-delete_field k j fs)

delete_field-absent : (k : Text) (fs : Fields) → get_field k fs ≡ none → delete_field k fs ≡ fs
unfolding get_field delete_field
delete_field-absent k no_fields h = refl
delete_field-absent k (field i v fs) h = ground (arith, delete_field-absent k fs)

get_field-delete_fields :
    (ks : List Text) (j : Text) (fs : Fields)
    → get_field j (delete_fields ks fs).1 ≡ (if contains ks j then none else get_field j fs)
unfolding delete_fields
get_field-delete_fields [] j fs = refl
get_field-delete_fields (k ∷ ks) j fs =
    ground (arith, get_field-delete_fields ks j (delete_field k fs), get_field-delete_field k j fs)

delete_fields-unchanged :
    (ks : List Text) (fs : Fields) → (delete_fields ks fs).0 ≡ false → (delete_fields ks fs).1 ≡ fs
unfolding delete_fields
delete_fields-unchanged [] fs h = refl
delete_fields-unchanged (k ∷ ks) fs h =
    let absent : get_field k fs ≡ none = ground (arith, h) in
    let same = delete_field-absent k fs absent in
    rw same (delete_fields-unchanged ks fs (ground (arith, h, same)))

Lacks-delete_fields : (ks : List Text) (fs : Fields) → Lacks (delete_fields ks fs).1 ks
unfolding delete_fields
Lacks-delete_fields [] fs = tt
Lacks-delete_fields (k ∷ ks) fs = (
  ground (arith, get_field-delete_fields (k ∷ ks) k fs, ==_self k),
  Lacks-delete_fields ks (delete_field k fs),
)

get_field-replace_field :
    (k j : Text) (v : Json) (fs : Fields)
    → (k == j) ≡ false
    → get_field j (replace_field k v fs) ≡ get_field j fs
unfolding get_field replace_field
get_field-replace_field k j v no_fields h = refl
get_field-replace_field k j v (field i u fs) h = ground (arith, get_field-replace_field k j v fs)

get_field-replaced :
    (k : Text) (v : Json) (fs : Fields)
    → is_some (get_field k fs) ≡ true
    → get_field k (replace_field k v fs) ≡ some v
unfolding get_field replace_field
get_field-replaced k v no_fields h = absurd (ground (arith, h))
get_field-replaced k v (field i u fs) h = ground (arith, get_field-replaced k v fs)

replace_field-same :
    (k : Text) (v : Json) (fs : Fields) → get_field k fs ≡ some v → replace_field k v fs ≡ fs
unfolding get_field replace_field
replace_field-same k v no_fields h = refl
replace_field-same k v (field i u fs) h = ground (arith, replace_field-same k v fs)

abbrev pub top_fields : List Text
top_fields = codes "kind" ∷ codes "apiVersion" ∷ codes "status" ∷ []

-- An object without the fields that only the server sets.
pub record IsClean (fs : Fields) : Type 0 where
  pub top : Lacks fs top_fields
  pub below : Lacks (as_map (get_field metadata fs)) server_fields

no_fields-Lacks : (ks : List Text) → Lacks no_fields ks
unfolding get_field
no_fields-Lacks [] = tt
no_fields-Lacks (k ∷ ks) = (refl, no_fields-Lacks ks)

unreplaced-top :
    (v : Json) (fs : Fields) → Lacks fs top_fields → Lacks (replace_field metadata v fs) top_fields
unfolding text_discrete
unreplaced-top v fs (a, (b, (c, u))) = (
  get_field-replace_field metadata (codes "kind") v fs refl ∙ a,
  (
    get_field-replace_field metadata (codes "apiVersion") v fs refl ∙ b,
    (get_field-replace_field metadata (codes "status") v fs refl ∙ c, tt),
  ),
)

with_map-IsClean :
    (found : Option Json) (fs : Fields)
    → get_field metadata fs ≡ found
    → Lacks fs top_fields
    → IsClean (with_map metadata found (delete_fields server_fields (as_map found)).1 fs)
with_map-IsClean (some (object old)) fs p top =
    let new = (delete_fields server_fields old).1 in
    record {
      top = unreplaced-top (object new) fs top;
      below =
          rw (get_field-replaced metadata (object new) fs (rw p refl))
            (Lacks-delete_fields server_fields old);
    }
with_map-IsClean none fs p top = record { top = top; below = rw p (no_fields-Lacks server_fields) }
with_map-IsClean (some null) fs p top = record {
  top = top;
  below = rw p (no_fields-Lacks server_fields);
}
with_map-IsClean (some (boolean b)) fs p top = record {
  top = top;
  below = rw p (no_fields-Lacks server_fields);
}
with_map-IsClean (some (number t)) fs p top = record {
  top = top;
  below = rw p (no_fields-Lacks server_fields);
}
with_map-IsClean (some (integer t)) fs p top = record {
  top = top;
  below = rw p (no_fields-Lacks server_fields);
}
with_map-IsClean (some (float t)) fs p top = record {
  top = top;
  below = rw p (no_fields-Lacks server_fields);
}
with_map-IsClean (some (string t)) fs p top = record {
  top = top;
  below = rw p (no_fields-Lacks server_fields);
}
with_map-IsClean (some (array l)) fs p top = record {
  top = top;
  below = rw p (no_fields-Lacks server_fields);
}

with_map-unchanged :
    (found : Option Json) (fs : Fields)
    → get_field metadata fs ≡ found
    → (delete_fields server_fields (as_map found)).0 ≡ false
    → with_map metadata found (delete_fields server_fields (as_map found)).1 fs ≡ fs
with_map-unchanged (some (object old)) fs p h =
    replace_field-same metadata (object (delete_fields server_fields old).1) fs
      (p ∙ ap (λ m. some (object m)) (sym (delete_fields-unchanged server_fields old h)))
with_map-unchanged none fs p h = refl
with_map-unchanged (some null) fs p h = refl
with_map-unchanged (some (boolean b)) fs p h = refl
with_map-unchanged (some (number t)) fs p h = refl
with_map-unchanged (some (integer t)) fs p h = refl
with_map-unchanged (some (float t)) fs p h = refl
with_map-unchanged (some (string t)) fs p h = refl
with_map-unchanged (some (array l)) fs p h = refl

without_server_fields-IsClean : (fs : Fields) → IsClean (without_server_fields fs).1
unfolding without_server_fields remove_metadata_fields
without_server_fields-IsClean fs =
    let rest = (delete_fields top_fields fs).1 in
    with_map-IsClean (get_field metadata rest) rest refl (Lacks-delete_fields top_fields fs)

without_server_fields-unchanged :
    (fs : Fields) → (without_server_fields fs).0 ≡ false → (without_server_fields fs).1 ≡ fs
unfolding without_server_fields remove_metadata_fields
without_server_fields-unchanged fs h =
    let rest = (delete_fields top_fields fs).1 in
    let found = get_field metadata rest in
    let first : (delete_fields top_fields fs).0 ≡ false = ground (arith, h) in
    let second : (delete_fields server_fields (as_map found)).0 ≡ false = ground (arith, h) in
    with_map-unchanged found rest refl second ∙ delete_fields-unchanged top_fields fs first

module _ (unmarshal : Text → Result Fields) (marshal : Fields → Result Text) where
  -- A text that stands for a clean object, as it is encoded or as it was given.
  abbrev pub SendsClean : Text → Text → Type 0
  SendsClean patch sent =
      (fs : Fields) × IsClean fs
      × ((marshal fs ≡ ok sent) ⊎ (unmarshal patch ≡ ok fs) × (sent ≡ patch))

  chosen-SendsClean :
      (empty only_applied changed : Bool) (patch sent : Text) (fs clean : Fields)
      → IsClean clean
      → (changed ≡ false → clean ≡ fs)
      → unmarshal patch ≡ ok fs
      → (if empty
          then ok (codes "{}")
          else if only_applied
          then ok (codes "{}")
          else if not changed
          then ok patch
          else marshal clean)
        ≡ ok sent
      → (sent ≡ codes "{}") ⊎ SendsClean patch sent
  chosen-SendsClean true b c patch sent fs clean v same p h = inl (sym (ok-injective h))
  chosen-SendsClean false true c patch sent fs clean v same p h = inl (sym (ok-injective h))
  chosen-SendsClean false false true patch sent fs clean v same p h = inr (clean, v, inl h)
  chosen-SendsClean false false false patch sent fs clean v same p h =
      inr (clean, v, inr (p ∙ ap ok (sym (same refl)), sym (ok-injective h)))

  -- What sanitizePatch returns, when it succeeds, is the empty patch or a text of an object without
  -- a kind, an API version and a status, and without the metadata that only the server sets: that
  -- object as it is encoded, or the patch as it was given, which then decodes to that object.
  pub sanitize_patch-SendsClean :
      (patch sent : Text)
      → sanitize_patch unmarshal marshal patch ≡ ok sent
      → (sent ≡ codes "{}") ⊎ SendsClean patch sent
  unfolding sanitize_patch
  sanitize_patch-SendsClean patch sent h =
      let (fs, p, q) = bind-eq_ok (unmarshal patch) _ h in
      let r = without_server_fields fs in
      chosen-SendsClean (empty_maps r.1 (metadata ∷ annotations ∷ []))
        (empty_maps r.1 (metadata ∷ annotations ∷ label_applied ∷ [])) r.0 patch sent fs r.1
        (without_server_fields-IsClean fs) (without_server_fields-unchanged fs) p q
