-- ===== src/Apply/Update/Kept.antt =====
-- pkg/apply/desiredset_compare.go: an update makes no call but a patch.
use nah.Prelude.{Text, codes, text_eq, ◌==◌, Bool, true, false, if_inv}
use nah.Error.{Result, ok, err}
use nah.Kube.{GroupVersionKind, gvk_eq, Object}
use nah.Apply.Style.{PatchStyle}
use nah.Apply.Patch.{sanitize_patch}
use nah.Apply.Update.{
  Updates, State, on_server, Outcome, patched, send_patch, reconcile, unless_handled,
  send_sanitized, send_created, texts, create_and_send, apply_patch, compare_objects,
}

module _ {V : Type 0} (u : Updates V) (Q : V → Type 0)
    (patches : (obj : Object) (style : PatchStyle) (diff : Text) (v : V)
      → Q v
      → Q (u.patch obj style diff v).1) where
  patched-Kept :
      (new : Object) (r : Result Object × State V) → Q r.1.server → Q (patched u new r).1.server
  patched-Kept new (ok obj, s) q = q
  patched-Kept new (err e, s) q = q

  send_patch-Kept :
      (gvk : GroupVersionKind) (style : PatchStyle) (diff : Text) (old new : Object) (s : State V)
      → Q s.server
      → Q (send_patch u gvk style diff old new s).1.server
  unfolding send_patch
  send_patch-Kept gvk style diff old new s q =
      let versioned = record new { resource_version = old.resource_version } in
      let target = u.unstructured gvk old.namespace old.name old.resource_version in
      if_inv (λ (r : Outcome × State V). Q r.1.server) u.ensure _ _
        (patched-Kept versioned (on_server (u.patch versioned style diff) s)
          (patches versioned style diff s.server q))
        (patched-Kept new (on_server (u.patch target style diff) s)
          (patches target style diff s.server q))

  unless_handled-Kept :
      (gvk : GroupVersionKind) (style : PatchStyle) (diff : Text) (old new : Object) (s : State V)
      (r : Result Bool)
      → Q s.server
      → Q (unless_handled u gvk style diff old new s r).1.server
  unless_handled-Kept gvk style diff old new s (err e) q = q
  unless_handled-Kept gvk style diff old new s (ok true) q = q
  unless_handled-Kept gvk style diff old new s (ok false) q =
      send_patch-Kept gvk style diff old new s q

  send_sanitized-Kept :
      (gvk : GroupVersionKind) (style : PatchStyle) (old new : Object) (s : State V)
      (r : Result Text)
      → Q s.server
      → Q (send_sanitized u gvk style old new s r).1.server
  send_sanitized-Kept gvk style old new s (err e) q = q
  send_sanitized-Kept gvk style old new s (ok diff) q =
      if_inv (λ (r : Outcome × State V). Q r.1.server) (diff == codes "{}") _ _ q
        (unless_handled-Kept gvk style diff old new s (reconcile u gvk old new (u.reconciler gvk))
          q)

  send_created-Kept :
      (gvk : GroupVersionKind) (old new : Object) (s : State V) (r : Result (PatchStyle × Text))
      → Q s.server
      → Q (send_created u gvk old new s r).1.server
  send_created-Kept gvk old new s (err e) q = q
  send_created-Kept gvk old new s (ok (style, diff)) q =
      if_inv (λ (r : Outcome × State V). Q r.1.server) (diff == codes "{}") _ _ q
        (send_sanitized-Kept gvk style old new s
          (sanitize_patch u.codec.unmarshal_map u.codec.marshal_map diff) q)

  create_and_send-Kept :
      (gvk : GroupVersionKind) (old new : Object) (s : State V) (r : Result ((Text × Text) × Text))
      → Q s.server
      → Q (create_and_send u gvk old new s r).1.server
  create_and_send-Kept gvk old new s (err e) q = q
  create_and_send-Kept gvk old new s (ok ((original, modified), current)) q =
      send_created-Kept gvk old new _ _ q

  -- What a patch keeps of the state behind the client is kept by compareObjects.
  pub compare_objects-Kept :
      (gvk : GroupVersionKind) (old new : Object) (s : State V)
      → Q s.server
      → Q (compare_objects u gvk old new s).1.server
  unfolding compare_objects apply_patch
  compare_objects-Kept gvk old new s q = create_and_send-Kept gvk old new s (texts u gvk old new) q
