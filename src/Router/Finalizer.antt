-- ===== src/Router/Finalizer.antt =====
-- pkg/router/finalizer.go: a handler that runs while its finalizer is the first on an object.
pub mod Release
use nah.Prelude.{
  Text, Map, insert, text_eq, ◌==◌, if◌then◌else◌, List, [], ◌∷◌, ◌++◌, Option, none, some, Bool,
  true, false, not, ◌&&◌, ◌||◌, is_some, contains, ℕ, nat_eq, head_is, tail_of,
}
use nah.Error.{Error, Result, ok, err}
use nah.Kube.{Object, Client}
use nah.Router.Handler.{Request, Response, Scope, Handler, retry_after}
use nah.Router.Filters.{is_deleting}

-- StatusChanged, on the status as opaque text
unfoldable pub status_changed : Object → Object → Bool
status_changed unmodified new = not (unmodified.status == new.status)

-- ResponseWrapper as it is made
abbrev pub fresh_response : Response
fresh_response = record { delay = 0; attributes = [] }

-- for k, v := range newResp.Attr { resp.Attributes()[k] = v }
unfoldable pub merge_attributes : Map Text Text → Map Text Text → Map Text Text
merge_attributes into [] = into
merge_attributes into ((k, v) ∷ from) = merge_attributes (insert k v into) from

-- What the wrapped handler asked for is passed on.
unfoldable pub pass_on : Response → Response → Response
unfolding merge_attributes retry_after
pass_on new resp =
    let delayed = if not (new.delay == 0) then retry_after new.delay resp else resp in
    record delayed { attributes = merge_attributes delayed.attributes new.attributes }

-- What a call of Update leaves, with its error.
module _ {W : Type 0} where
  abbrev pub added : Object → Scope W → Result Object × W → Option Error × Scope W
  added sent s (ok updated, w) = (none, record s { object = some updated; world = w })
  added sent s (err e, w) = (some e, record s { object = some sent; world = w })

  abbrev pub released : Scope W → Result Object × W → Option Error × Scope W
  released s (ok updated, w) = (none, record s { world = w })
  released s (err e, w) = (some e, record s { world = w })

module _ {W : Type 0} (client : Client W) (id : Text) where
  -- The first branch: an object that is not being deleted gets the finalizer.
  unfoldable pub add_finalizer : Object → Scope W → Option Error × Scope W
  add_finalizer obj s =
      if contains obj.finalizers id
      then (none, s)
      else (let obj' = record obj { finalizers = obj.finalizers ++ id ∷ [] } in
          added obj' s (client.update obj' s.world))

  -- The last steps: the finalizer is taken off where the handler is done.
  unfoldable pub release : Object → Object → ℕ → Scope W → Option Error × Scope W
  release obj new_obj delay s =
      if delay == 0 && head_is new_obj.finalizers id
      then released s
          (client.update (record new_obj { finalizers = tail_of obj.finalizers }) s.world)
      else (none, s)

  abbrev pub after_status : Object → ℕ → Scope W → Result Object × W → Option Error × Scope W
  after_status obj delay s (ok updated, w) = release obj updated delay (record s { world = w })
  after_status obj delay s (err e, w) = (some e, record s { world = w })

  -- A change of the status is written first.
  unfoldable pub write_status : Object → Object → ℕ → Scope W → Option Error × Scope W
  unfolding release status_changed
  write_status obj new_obj delay s =
      if status_changed obj new_obj
      then after_status obj delay s (client.update_status new_obj s.world)
      else release obj new_obj delay s

  -- The wrapped handler changes a copy in place, and cannot take the copy away.
  abbrev pub copy_of : Object → Option Object → Object
  copy_of obj none = obj
  copy_of obj (some new_obj) = new_obj

  -- Behind the call of the wrapped handler.
  unfoldable pub conclude : Object → Scope W → Option Error × Scope W → Option Error × Scope W
  unfolding write_status pass_on
  conclude obj s (some e, s') = (some e, record s { world = s'.world })
  conclude obj s (none, s') =
      write_status obj (copy_of obj s'.object) s'.response.delay
        (record s { response = pass_on s'.response s.response; world = s'.world })

  unfoldable pub on_object : Handler W → Request → Scope W → Object → Option Error × Scope W
  unfolding add_finalizer conclude
  on_object next req s obj =
      if not (is_deleting obj)
      then add_finalizer obj s
      else if not (head_is obj.finalizers id)
      then (none, s)
      else conclude obj s (next req (record s { object = some obj; response = fresh_response }))

  abbrev pub on_option : Handler W → Request → Scope W → Option Object → Option Error × Scope W
  on_option next req s none = (none, s)
  on_option next req s (some obj) = on_object next req s obj

  -- FinalizerHandler.Handle
  unfoldable pub finalizer_handler : Handler W → Handler W
  unfolding on_object
  finalizer_handler next req s = on_option next req s s.object
