-- ===== src/Runtime/Cached/Reads.antt =====
-- pkg/runtime/cached.go: what Get answers after a write of one's own.
use nah.Prelude.{true, false, ◌≡◌}
use nah.Error.{Result, ok, err, not_found, has_reason}
use nah.Kube.{gvk_eq, Object}
use nah.Runtime.Cached.{cache_key_eq, CacheClient, newer}

-- The same object of the same kind, maybe at another version.
pub record IsSame {W : Type 0} (c : CacheClient W) (a b : Object) : Type 0 where
  pub namespace_eq : a.namespace ≡ b.namespace
  pub name_eq : a.name ≡ b.name
  pub type_eq : a.go_type ≡ b.go_type
  pub kind_eq : c.gvk_for_object a ≡ c.gvk_for_object b

module _ {W : Type 0} (c : CacheClient W) where
  -- What the cache may answer of an object that was saved: any version of it; or that it is not
  -- there, if the object that is filled in has the kind, namespace and name of the saved one.
  abbrev pub IsAnswer : Object → Object → Result Object → Type 0
  IsAnswer saved into (ok found) = IsSame c found saved
  IsAnswer saved into (err e) = (has_reason not_found e ≡ true) × IsSame c into saved

  -- An answer that is not older than a version.
  abbrev pub IsRecent : Object → Result Object → Type 0
  IsRecent saved (err e) = ⊥
  IsRecent saved (ok r) = newer c.atoi r.resource_version saved.resource_version ≡ false
