-- ===== src/Router/Finalizer/Release.antt =====
-- When a finalizer is taken off.
use nah.Prelude.{
  Text, text_eq, Option, none, some, true, false, ℕ, nat_eq, head_is, ◌≡◌, refl, ap, Bool-cases,
  inl, inr, ◌≢◌, ==_of_ne,
}
use nah.Error.{Error, Result, ok, err}
use nah.Kube.{Object, Client}
use nah.Router.Handler.{Request, Scope, Handler}
use nah.Router.Filters.{is_deleting}
use nah.Router.Finalizer.{
  status_changed, fresh_response, copy_of, release, write_status, conclude, on_object,
  finalizer_handler, pass_on, released, after_status, on_option,
}

module _ {W : Type 0} (client : Client W) (id : Text) (obj new_obj : Object) (delay : ℕ)
    (s : Scope W) where
  write_status-changed :
      status_changed obj new_obj ≡ true
      → write_status client id obj new_obj delay s
        ≡ after_status client id obj delay s (client.update_status new_obj s.world)
  unfolding write_status
  write_status-changed h = rw h refl

  write_status-same :
      status_changed obj new_obj ≡ false
      → write_status client id obj new_obj delay s ≡ release client id obj new_obj delay s
  unfolding write_status
  write_status-same h = rw h refl

module _ {W : Type 0} (client : Client W) (id : Text) (next : Handler W) (req : Request)
    (s : Scope W) (obj : Object) where
  finalizer_handler-object :
      s.object ≡ some obj
      → finalizer_handler client id next req s ≡ on_object client id next req s obj
  unfolding finalizer_handler
  finalizer_handler-object h = ap (on_option client id next req s) h

  on_object-other :
      is_deleting obj ≡ true
      → head_is obj.finalizers id ≡ false
      → on_object client id next req s obj ≡ (none, s)
  unfolding on_object
  on_object-other h k = rw (h, k) refl

  on_object-first :
      is_deleting obj ≡ true
      → head_is obj.finalizers id ≡ true
      → on_object client id next req s obj
        ≡ conclude client id obj s
            (next req (record s { object = some obj; response = fresh_response }))
  unfolding on_object
  on_object-first h k = rw (h, k) refl

module _ {W : Type 0} (client : Client W) (id : Text) (P : W → Type 0) where
  -- Writing a status keeps what P says of the world.
  abbrev StatusKeeps : Type 0
  StatusKeeps = (obj : Object) (w : W) → P w → P (client.update_status obj w).1

  release-keeps :
      (obj new_obj : Object) (delay : ℕ) (s : Scope W)
      → delay ≢ 0
      → P s.world
      → P (release client id obj new_obj delay s).1.world
  unfolding release
  release-keeps obj new_obj delay s d p = rw (==_of_ne delay 0 d) p

  after_status-keeps :
      (obj : Object) (delay : ℕ) (s : Scope W) (sent : Result Object × W)
      → delay ≢ 0
      → P sent.1
      → P (after_status client id obj delay s sent).1.world
  after_status-keeps obj delay s (ok updated, w) d p =
      release-keeps obj updated delay (record s { world = w }) d p
  after_status-keeps obj delay s (err e, w) d p = p

  write_status-keeps :
      (obj new_obj : Object) (delay : ℕ) (s : Scope W)
      → StatusKeeps
      → delay ≢ 0
      → P s.world
      → P (write_status client id obj new_obj delay s).1.world
  write_status-keeps obj new_obj delay s keeps d p =
      elim (Bool-cases (status_changed obj new_obj)) [
        | inl changed ↦
            rw (write_status-changed client id obj new_obj delay s changed)
              (after_status-keeps obj delay s _ d (keeps new_obj s.world p))
        | inr same ↦
            rw (write_status-same client id obj new_obj delay s same)
              (release-keeps obj new_obj delay s d p)
      ]

  -- The handler that runs while the finalizer is first says that it is done.
  abbrev IsDone : Option Error × Scope W → Type 0
  IsDone (e, s') = (e ≡ none) × (s'.response.delay ≡ 0)

  conclude-keeps :
      (obj : Object) (s : Scope W) (out : Option Error × Scope W)
      → StatusKeeps
      → ¬ IsDone out
      → P out.1.world
      → P (conclude client id obj s out).1.world
  unfolding conclude
  conclude-keeps obj s (some e, s') keeps undone p = p
  conclude-keeps obj s (none, s') keeps undone p =
      write_status-keeps obj (copy_of client id obj s'.object) s'.response.delay _ keeps
        (λ z. undone (refl, z)) p

  -- On an object that is being deleted, whatever holds of the world and is kept by writing a status
  -- and by the wrapped handler still holds afterwards, unless the finalizer is the first one and the
  -- wrapped handler returned without an error and asked for no retry: in no other case is the
  -- finalizer taken off.
  pub finalizer_handler-keeps :
      (next : Handler W) (req : Request) (s : Scope W) (obj : Object)
      → StatusKeeps
      → ((q : Request) (t : Scope W) → P t.world → P (next q t).1.world)
      → s.object ≡ some obj
      → is_deleting obj ≡ true
      → ¬ (
          (head_is obj.finalizers id ≡ true)
          × IsDone (next req (record s { object = some obj; response = fresh_response })))
      → P s.world
      → P (finalizer_handler client id next req s).1.world
  finalizer_handler-keeps next req s obj keeps next_keeps there deleting undone p =
      rw (finalizer_handler-object client id next req s obj there)
        (elim (Bool-cases (head_is obj.finalizers id)) [
          | inl first ↦
              rw (on_object-first client id next req s obj deleting first)
                (conclude-keeps obj s _ keeps (λ done. undone (first, done)) (next_keeps req _ p))
          | inr other ↦ rw (on_object-other client id next req s obj deleting other) p
        ])

-- The scope in which the last steps run.
abbrev after : {W : Type 0} → Scope W → Scope W → Scope W
after s s' = record s { response = pass_on s'.response s.response; world = s'.world }

world-released :
    {W : Type 0} (s : Scope W) (sent : Result Object × W) → (released s sent).1.world ≡ sent.1
world-released s (ok updated, w) = refl
world-released s (err e, w) = refl

module _ {W : Type 0} (client : Client W) (id : Text) where
  conclude-none :
      (obj : Object) (s s' : Scope W) {new_obj : Object}
      → s'.object ≡ some new_obj
      → conclude client id obj s (none, s')
        ≡ write_status client id obj new_obj s'.response.delay (after s s')
  unfolding conclude
  conclude-none obj s s' h =
      ap (λ o. write_status client id obj (copy_of client id obj o) s'.response.delay (after s s'))
        h
