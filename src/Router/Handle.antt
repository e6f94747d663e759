-- ===== src/Router/Handle.antt =====
-- pkg/router/handler.go: how a handler set runs the handlers on one object and passes it on.
pub mod Outcome
pub mod Writes
use nah.Prelude.{
  Text, codes, cut, has_prefix, trim_prefix, Map, insert, text_eq, ◌==◌, if◌then◌else◌, ltb, List,
  [], ◌∷◌, ◌++◌, Option, none, some, Bool, true, false, not, ◌&&◌, ℕ,
}
use nah.Error.{Error, Result, ok, err, Reason, not_found, has_reason}
use nah.Kube.{GroupVersionKind, Object, Client}
use nah.Router.Handler.{Request, Response, Scope}
use nah.Router.Triggers.{TriggerKey, trigger_key_eq, Pending}
use nah.Router.Registry.{Registry, handles, handle_all}
use nah.Router.Save.{Saved, save}
use nah.Router.Limits.{Limits, Rate, check_delay, forget_backoff, trigger_prefix, replay_prefix}

-- What a handler set calls and what it is set up with: the client of the requests and the backend's
-- own, backend.Trigger, scheme.New, the handlers, and onError where it is set.
pub record Setup (W L : Type 0) : Type 0 where
  pub request_client : Client W
  pub backend : Client W
  pub enqueue : GroupVersionKind → Text → ℕ → W → Option Error × W
  pub scheme_new : GroupVersionKind → Option Error
  pub rate : Rate L
  pub handlers : Registry W
  pub on_error : Option (Request → Option Error → Scope W → Option Error × Scope W)

-- What a run of handle leaves: its two results, the world, and the map toTrigger of the triggers.
pub record Handled (W : Type 0) : Type 0 where
  pub object : Option Object
  pub failure : Option Error
  pub world : W
  pub pending : Pending

abbrev pub trigger_key : Request → TriggerKey
trigger_key req = record { name = req.name; namespace = req.namespace; gvk = req.gvk }

-- triggers.Trigger
unfoldable pub trigger : Request → Option Object → Pending → Pending
trigger req obj pending = insert (trigger_key req) obj pending

-- triggers.UnregisterAndTrigger
unfoldable pub unregister_and_trigger : Request → Pending → Pending
unregister_and_trigger req pending = insert (trigger_key req) none pending

-- The deletion of an object is handled like any event; an event by a trigger is not passed on.
unfoldable pub trigger_after : Option Object → Request → Option Object → Pending → Pending
unfolding trigger unregister_and_trigger
trigger_after none req obj pending = unregister_and_trigger req pending
trigger_after (some o) req obj pending =
    if not req.from_trigger then trigger req obj pending else pending

abbrev pub namespace_name : Text → Option (Text × Text) → Text × Text
namespace_name key none = ([], key)
namespace_name key (some (ns, name)) = (ns, name)

-- newRequestResponse
unfoldable pub new_request : GroupVersionKind → Text → Bool → Request
new_request gvk key from_trigger =
    let (ns, name) = namespace_name key (cut key (codes "/")) in
    record { gvk = gvk; namespace = ns; name = name; key = key; from_trigger = from_trigger }

module _ {W L : Type 0} (setup : Setup W L) where
  abbrev pub call_on_error :
      Option (Request → Option Error → Scope W → Option Error × Scope W)
      → Request
      → Option Error
      → Scope W
      → Option Error × Scope W
  call_on_error none req e s = (e, s)
  call_on_error (some f) req e s = f req e s

  -- HandlerSet.handleError
  unfoldable pub handle_error : Request → Option Error → Scope W → Option Error × Scope W
  handle_error req e s = call_on_error setup.on_error req e s

  -- if err != nil { if err := m.handleError(…); err != nil { return nil, err } }
  abbrev pub handled : Request → Option Error × Scope W → Option Error × Scope W
  handled req (none, s) = (none, s)
  handled req (some e, s) = handle_error req (some e) s

  -- The handlers, where there are any, and handleError on what they return.
  unfoldable pub run_handlers : Request → Scope W → Option Error × Scope W
  unfolding handle_all handles handle_error
  run_handlers req s =
      if handles setup.handlers req
      then handled req (handle_all setup.handlers req s)
      else (none, s)

  abbrev pub keep_object : Option Object → Option Object → Option Object
  keep_object none current = none
  keep_object (some o) current = current

  -- The result of save: what is left of the object, after handleError where it failed.
  abbrev pub after_save : Request → Scope W → Saved W → Option Error × Scope W
  after_save req s saved = elim saved.failure [
    | none ↦ (none, record s { object = saved.object; world = saved.world })
    | some e ↦
        let (e', s') = handle_error req (some e) (record s { world = saved.world }) in
        (e', record s' { object = keep_object saved.object s'.object })
  ]

  -- if resp.delay > 0 { if err := m.backend.Trigger(…); err != nil { return nil, err } }
  abbrev pub enqueued : Scope W → Option Error × W → Option Error × Scope W
  enqueued s (e, w) = (e, record s { world = w })

  unfoldable pub retry_later : Request → Scope W → Option Error × Scope W
  retry_later req s =
      if ltb 0 s.response.delay
      then enqueued s (setup.enqueue req.gvk req.key s.response.delay s.world)
      else (none, s)

  abbrev pub then_retry : Request → Option Error × Scope W → Option Error × Scope W
  then_retry req (some e, s) = (some e, s)
  then_retry req (none, s) = retry_later req s

  -- The second block of handle under `if handles`.
  unfoldable pub save_and_retry : Option Object → Request → Scope W → Option Error × Scope W
  unfolding handles save handle_error retry_later
  save_and_retry unmodified req s =
      if handles setup.handlers req
      then then_retry req
          (after_save req s (save setup.request_client setup.backend unmodified s.object s.world))
      else (none, s)

  -- return req.Object, m.handleError(req, resp, err), where err is nil
  abbrev pub finish : Request → Pending → Option Error × Scope W → Handled W
  finish req pending (some e, s) = record {
    object = none;
    failure = some e;
    world = s.world;
    pending = pending;
  }
  finish req pending (none, s) =
      let (e, s') = handle_error req none s in
      record { object = s'.object; failure = e; world = s'.world; pending = pending }

  abbrev pub after_handlers : Option Object → Request → Pending → Option Error × Scope W → Handled W
  after_handlers unmodified req pending (some e, s) = record {
    object = none;
    failure = some e;
    world = s.world;
    pending = pending;
  }
  after_handlers unmodified req pending (none, s) =
      finish req (trigger_after unmodified req s.object pending) (save_and_retry unmodified req s)

  abbrev pub first_scope : Option Object → W → Scope W
  first_scope obj w = record {
    object = obj;
    response = record { delay = 0; attributes = [] };
    world = w;
  }

  -- HandlerSet.handle
  unfoldable pub handle : GroupVersionKind → Text → Option Object → Bool → Pending → W → Handled W
  unfolding run_handlers trigger_after save_and_retry handle_error new_request
  handle gvk key unmodified from_trigger pending w =
      let req = new_request gvk key from_trigger in
      after_handlers unmodified req pending (run_handlers req (first_scope unmodified w))
