-- ===== src/Apply/Style.antt =====
-- pkg/apply/patch_style.go and createPatch of desiredset_compare.go: how the patch for a kind is
-- made. The global patchCache is an argument and a result.
use nah.Prelude.{Text, codes, Map, lookup, insert, text_eq, ◌==◌, if◌then◌else◌, Option, none, some}
use nah.Error.{Result, ok, err}
use nah.Kube.{GroupVersionKind, gvk_eq}
use nah.Apply.Orphans.{Known, registered_type, not_registered, new_failed}

-- A patch type with what the library looks up for it: patchCacheEntry.
pub data PatchStyle : Type 0 where
  merge : PatchStyle
  strategic : Text → PatchStyle

abbrev pub PatchCache : Type 0
PatchCache = Map GroupVersionKind PatchStyle

-- The types and the schema that are compiled in: scheme.Scheme.New and NewPatchMetaFromStruct.
module _ (scheme_new : GroupVersionKind → Known) (patch_meta : GroupVersionKind → Result Text) where
  abbrev pub strategic_style : Result Text → Result PatchStyle
  strategic_style (err e) = err e
  strategic_style (ok lookups) = ok (strategic lookups)

  abbrev pub style_of_known : GroupVersionKind → Known → Result PatchStyle
  style_of_known gvk not_registered = ok merge
  style_of_known gvk (new_failed e) =
      if gvk.kind == codes "CustomResourceDefinition" then ok merge else err e
  style_of_known gvk registered_type =
      if gvk.kind == codes "CustomResourceDefinition"
      then ok merge
      else strategic_style (patch_meta gvk)

  -- The part of getMergeStyle behind the look into the cache
  unfoldable pub new_style : GroupVersionKind → Result PatchStyle
  new_style gvk = style_of_known gvk (scheme_new gvk)

  abbrev pub kept_style :
      GroupVersionKind → PatchCache → Result PatchStyle → Result PatchStyle × PatchCache
  kept_style gvk cache (err e) = (err e, cache)
  kept_style gvk cache (ok style) = (ok style, insert gvk style cache)

  abbrev pub style_or_new :
      GroupVersionKind → PatchCache → Option PatchStyle → Result PatchStyle × PatchCache
  style_or_new gvk cache (some style) = (ok style, cache)
  style_or_new gvk cache none = kept_style gvk cache (new_style gvk)

  -- getMergeStyle
  unfoldable pub get_merge_style : GroupVersionKind → PatchCache → Result PatchStyle × PatchCache
  unfolding new_style lookup insert
  get_merge_style gvk cache = style_or_new gvk cache (lookup gvk cache)

  -- The two library calls that make a patch of the original, the modified and the current object.
  module _ (merge_patch : Text → Text → Text → Result Text)
      (strategic_patch : Text → Text → Text → Text → Result Text) where
    abbrev pub typed_patch : PatchStyle → Result Text → Result (PatchStyle × Text)
    typed_patch style (err e) = err e
    typed_patch style (ok patch) = ok (style, patch)

    abbrev pub patch_as : Text → Text → Text → Result PatchStyle → Result (PatchStyle × Text)
    patch_as original modified current (err e) = err e
    patch_as original modified current (ok merge) =
        typed_patch merge (merge_patch original modified current)
    patch_as original modified current (ok (strategic lookups)) =
        typed_patch (strategic lookups) (strategic_patch lookups original modified current)

    -- createPatch
    unfoldable pub create_patch :
        GroupVersionKind → Text → Text → Text → PatchCache → Result (PatchStyle × Text) × PatchCache
    unfolding get_merge_style
    create_patch gvk original modified current cache =
        let (style, cache') = get_merge_style gvk cache in
        (patch_as original modified current style, cache')
