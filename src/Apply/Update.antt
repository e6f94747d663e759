-- ===== src/Apply/Update.antt =====
-- pkg/apply/desiredset_compare.go: applyPatch and compareObjects, which bring an object that exists
-- to what is desired.
pub mod Kept
use nah.Prelude.{
  Text, codes, text_eq, ◌==◌, if◌then◌else◌, List, [], ◌∷◌, ◌++◌, Option, none, some, Bool, true,
  false, not,
}
use nah.Error.{Error, message, wrapped, Result, ok, err, ◌>>=◌}
use nah.Kube.{GroupVersionKind, gvk_eq, Object}
use nah.Apply.Orphans.{Known}
use nah.Apply.Patch.{sanitize_patch}
use nah.Apply.Style.{PatchStyle, PatchCache, create_patch}
use nah.Apply.Prepare.{Codec, prepare_object_for_create, get_original_object, original_and_modified}

-- What the updates work with: the codec, the scheme and patches of the libraries, the reconcilers
-- of the apply, its ensure flag, and the call Patch of its client, which may fill its object. An
-- unstructured object with a kind, a namespace, a name and a resource version is patched unless
-- the apply ensures.
pub record Updates (V : Type 0) : Type 0 where
  pub codec : Codec
  pub scheme_new : GroupVersionKind → Known
  pub patch_meta : GroupVersionKind → Result Text
  pub merge_patch : Text → Text → Text → Result Text
  pub strategic_patch : Text → Text → Text → Text → Result Text
  pub reconciler : GroupVersionKind → Option (Object → Object → Result Bool)
  pub unstructured : GroupVersionKind → Text → Text → Text → Object
  pub patch : Object → PatchStyle → Text → V → Result Object × V
  pub ensure : Bool

-- The patch cache with the state behind the client.
pub record State (V : Type 0) : Type 0 where
  pub styles : PatchCache
  pub server : V

abbrev pub on_server {ℓ} : {V : Type 0} {A : Type ℓ} → (V → A × V) → State V → A × State V
on_server call s = let (a, v) = call s.server in (a, record s { server = v })

-- What an update ended with: whether it ran, or an error, with the new object as it is then.
pub record Outcome : Type 0 where
  pub ran : Result Bool
  pub new : Object

module _ {V : Type 0} (u : Updates V) where
  abbrev pub ended : Object → Result Bool → State V → Outcome × State V
  ended new ran s = (record { ran = ran; new = new }, s)

  abbrev pub patched : Object → Result Object × State V → Outcome × State V
  patched new (err e, s) = ended new (err e) s
  patched new (ok obj, s) = ended (if u.ensure then obj else new) (ok true) s

  -- The end of applyPatch: the call of the client
  unfoldable pub send_patch :
      GroupVersionKind → PatchStyle → Text → Object → Object → State V → Outcome × State V
  send_patch gvk style diff old new s =
      let versioned = record new { resource_version = old.resource_version } in
      if u.ensure
      then patched versioned (on_server (u.patch versioned style diff) s)
      else patched new (
          on_server
            (u.patch (u.unstructured gvk old.namespace old.name old.resource_version) style diff) s)

  abbrev pub or_old : Object → Option Object → Object
  or_old old none = old
  or_old old (some original) = original

  -- What the reconciler of the kind makes of the object that was applied and the desired one.
  unfoldable pub reconcile :
      GroupVersionKind → Object → Object → Option (Object → Object → Result Bool) → Result Bool
  unfolding prepare_object_for_create get_original_object
  reconcile gvk old new none = ok false
  reconcile gvk old new (some reconciler) = do
    prepared ← prepare_object_for_create u.codec gvk new true
    original ← get_original_object u.codec gvk old
    reconciler (or_old old original) prepared

  abbrev pub unless_handled :
      GroupVersionKind
      → PatchStyle
      → Text
      → Object
      → Object
      → State V
      → Result Bool
      → Outcome × State V
  unless_handled gvk style diff old new s (err e) = ended new (err e) s
  unless_handled gvk style diff old new s (ok handled) =
      if handled then ended new (ok true) s else send_patch gvk style diff old new s

  abbrev pub send_sanitized :
      GroupVersionKind → PatchStyle → Object → Object → State V → Result Text → Outcome × State V
  send_sanitized gvk style old new s (err e) = ended new (err e) s
  send_sanitized gvk style old new s (ok diff) =
      if diff == codes "{}"
      then ended new (ok false) s
      else unless_handled gvk style diff old new s (reconcile gvk old new (u.reconciler gvk))

  abbrev pub send_created :
      GroupVersionKind → Object → Object → State V → Result (PatchStyle × Text) → Outcome × State V
  send_created gvk old new s (err e) = ended new (err (wrapped (codes "patch generation: ") e)) s
  send_created gvk old new s (ok (style, diff)) =
      if diff == codes "{}"
      then ended new (ok false) s
      else send_sanitized gvk style old new s
          (sanitize_patch u.codec.unmarshal_map u.codec.marshal_map diff)

  -- The three texts that the patch is made of
  abbrev pub texts : GroupVersionKind → Object → Object → Result ((Text × Text) × Text)
  texts gvk old new = do
    both ← original_and_modified u.codec gvk old new
    current ← u.codec.marshal old
    ok (both, current)

  abbrev pub create_and_send :
      GroupVersionKind
      → Object
      → Object
      → State V
      → Result ((Text × Text) × Text)
      → Outcome × State V
  create_and_send gvk old new s (err e) = ended new (err e) s
  create_and_send gvk old new s (ok ((original, modified), current)) =
      let (made, styles) =
        create_patch u.scheme_new u.patch_meta u.merge_patch u.strategic_patch gvk original modified
          current s.styles in
      send_created gvk old new (record s { styles = styles }) made

  -- applyPatch
  unfoldable pub apply_patch : GroupVersionKind → Object → Object → State V → Outcome × State V
  unfolding original_and_modified create_patch sanitize_patch reconcile send_patch
  apply_patch gvk old new s = create_and_send gvk old new s (texts gvk old new)

  -- Where nothing ran under ensure, the desired object becomes the one that exists.
  abbrev pub copied_back : Object → Object → Option Error × Object
  copied_back old new =
      if not (old.go_type == new.go_type)
      then (some (message (codes "type not assignable")), new)
      else (none, old)

  abbrev pub compared_by : Object → Object → Result Bool → Option Error × Object
  compared_by old new (err e) = (some e, new)
  compared_by old new (ok ran) =
      if ran then (none, new) else if u.ensure then copied_back old new else (none, new)

  abbrev pub compared : Object → Outcome × State V → (Option Error × Object) × State V
  compared old (o, s) = (compared_by old o.new o.ran, s)

  -- compareObjects: its error, and the desired object as it is afterwards
  unfoldable pub compare_objects :
      GroupVersionKind → Object → Object → State V → (Option Error × Object) × State V
  unfolding apply_patch
  compare_objects gvk old new s = compared old (apply_patch gvk old new s)
