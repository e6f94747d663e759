-- ===== src/Router/Triggers/Effect.antt =====
-- What register and process leave registered.
use nah.Prelude.{
  Text, lookup, insert, delete, lookup-insert, lookup-delete, text_eq, ◌==◌, if◌then◌else◌, List,
  [], ◌∷◌, Option, none, some, Bool, false, ◌&&◌, ◌||◌, contains, ◌≡◌, refl, arith,
}
use nah.Kube.{GroupVersionKind, gvk_eq, Object}
use nah.Router.Matcher.{ObjectMatcher, matcher_string}
use nah.Router.Triggers.{
  EnqueueTarget, target_eq, ByKey, ByTarget, Matchers, Pending, or_new, registered, load_or_store,
  register, direct_key, target_of, delete_targets, delete_keys_of, delete_all, delete_in_targets,
  process,
}

abbrev pub or_else : Option ObjectMatcher → ObjectMatcher → Option ObjectMatcher
or_else none mr = some mr
or_else (some m) mr = some m

lookup-load_or_store :
    (k j : Text) (mr : ObjectMatcher) (m : ByKey)
    → lookup j (load_or_store k mr m) ≡ (if k == j then or_else (lookup j m) mr else lookup j m)
unfolding load_or_store
lookup-load_or_store k j mr m = ground (arith, lookup-insert k j mr m)

-- register adds its matcher where none with the same string is stored, and changes nothing else.
pub registered-register :
    (gvk : GroupVersionKind) (key : Text) (target_gvk : GroupVersionKind) (mr : ObjectMatcher)
    (ms : Matchers) (g : GroupVersionKind) (t : EnqueueTarget) (k : Text)
    → registered (register gvk key target_gvk mr ms) g t k ≡ (
        if target_gvk == g && (record { key = key; gvk = gvk } == t && matcher_string mr == k)
        then or_else (registered ms g t k) mr
        else registered ms g t k)
unfolding register
registered-register gvk key target_gvk mr ms g t k =
    let target : EnqueueTarget = record { key = key; gvk = gvk } in
    let by_target = or_new (lookup target_gvk ms) in
    let by_key = or_new (lookup target by_target) in
    ground (
      arith,
      lookup-insert target_gvk g
          (insert target (load_or_store (matcher_string mr) mr by_key) by_target) ms,
      lookup-insert target t (load_or_store (matcher_string mr) mr by_key) by_target,
      lookup-load_or_store (matcher_string mr) k mr by_key,
    )

-- The object of a target was removed.
pub gone : Pending → EnqueueTarget → Bool
gone [] t = false
gone ((key, none) ∷ pending) t = target_of key == t || gone pending t
gone ((key, some obj) ∷ pending) t = gone pending t

lookup-delete_targets :
    (pending : Pending) (ts : ByTarget) (t : EnqueueTarget)
    → lookup t (delete_targets pending ts) ≡ (if gone pending t then none else lookup t ts)
unfolding delete_targets gone
lookup-delete_targets [] ts t = refl
lookup-delete_targets ((key, none) ∷ pending) ts t = ground (
  arith,
  lookup-delete_targets pending (delete (target_of key) ts) t,
  lookup-delete (target_of key) t ts,
)
lookup-delete_targets ((key, some obj) ∷ pending) ts t = lookup-delete_targets pending ts t

lookup-delete_all :
    (ks : List Text) (m : ByKey) (k : Text)
    → lookup k (delete_all ks m) ≡ (if contains ks k then none else lookup k m)
unfolding delete_all
lookup-delete_all [] m k = refl
lookup-delete_all (j ∷ ks) m k =
    ground (arith, lookup-delete_all ks (delete j m) k, lookup-delete j k m)

-- The object that a matcher by name alone watches was removed.
pub gone_by_name : Pending → GroupVersionKind → Text → Bool
gone_by_name [] g k = false
gone_by_name ((key, none) ∷ pending) g k =
    (key.gvk == g && direct_key key == k) || gone_by_name pending g k
gone_by_name ((key, some obj) ∷ pending) g k = gone_by_name pending g k

contains-delete_keys_of :
    (pending : Pending) (g : GroupVersionKind) (k : Text)
    → contains (delete_keys_of pending g) k ≡ gone_by_name pending g k
unfolding delete_keys_of gone_by_name
contains-delete_keys_of [] g k = refl
contains-delete_keys_of ((key, none) ∷ pending) g k =
    ground (arith, contains-delete_keys_of pending g k)
contains-delete_keys_of ((key, some obj) ∷ pending) g k = contains-delete_keys_of pending g k

lookup-delete_in_targets :
    (ks : List Text) (ts : ByTarget) (t : EnqueueTarget) (k : Text)
    → lookup k (or_new (lookup t (delete_in_targets ks ts)))
      ≡ (if contains ks k then none else lookup k (or_new (lookup t ts)))
unfolding delete_in_targets lookup
lookup-delete_in_targets ks [] t k = ground arith
lookup-delete_in_targets ks ((u, m) ∷ ts) t k =
    ground (arith, lookup-delete_in_targets ks ts t k, lookup-delete_all ks m k)

-- After process, a matcher is registered exactly if it was, its target was not removed, and it is
-- not by name alone on an object that was removed.
pub registered-process :
    (is_fields : Object → Bool) (pending : Pending) (ms : Matchers) (g : GroupVersionKind)
    (t : EnqueueTarget) (k : Text)
    → registered (process is_fields pending ms).1 g t k
      ≡ (if gone pending t || gone_by_name pending g k then none else registered ms g t k)
unfolding process lookup
registered-process f pending [] g t k = ground arith
registered-process f pending ((h, ts) ∷ ms) g t k = ground (
  arith,
  registered-process f pending ms g t k,
  lookup-delete_in_targets (delete_keys_of pending h) (delete_targets pending ts) t k,
  lookup-delete_targets pending ts t,
  contains-delete_keys_of pending h k,
)
