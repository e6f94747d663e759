-- ===== src/Apply/Process/Whole.antt =====
-- pkg/apply/desiredset_process.go: process from its start, for every state of the server.
use nah.Prelude.{Text, text_eq, IsMap}
use nah.Error.{Error, Result, ok, err}
use nah.Kube.{GroupVersionKind}
use nah.Apply.ObjectSet.{object_key_eq, ObjectByKey, ObjectSet}
use nah.Apply.Update.{State}
use nah.Apply.Process.{Applier}

-- What a result has if it is no error.
abbrev pub Holds {ℓ κ} : {A : Type ℓ} → (A → Type κ) → Result A → Type κ
Holds P (err e) = Unit
Holds P (ok a) = P a

abbrev pub IsKeyed : ObjectByKey → Type 0
IsKeyed objs = IsMap objs

module _ {V : Type 0} (a : Applier V) (gvk : GroupVersionKind) where
  module _ (Q : V → Type 0)
      (gets : (g : GroupVersionKind) (ns n : Text) (v : V) → Q v → Q (a.client.get g ns n v).1)
      (lists : (g : GroupVersionKind) (ns selector : Text) (v : V)
        → Q v
        → Q (a.list_objects g ns selector v).1) where
    -- An answer that is a map, and a state of which Q holds.
    abbrev IsListed : Result ObjectByKey × State V → Type 0
    IsListed (r, s) = Holds IsKeyed r × Q s.server
