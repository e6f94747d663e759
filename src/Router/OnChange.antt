-- ===== src/Router/OnChange.antt =====
-- pkg/router/handler.go: how a handler set treats one change event.
pub mod Replay
use nah.Prelude.{
  Text, codes, cut, has_prefix, trim_prefix, Map, insert, text_eq, ◌==◌, if◌then◌else◌, ltb, List,
  [], ◌∷◌, ◌++◌, Option, none, some, Bool, true, false, not, ◌&&◌, ℕ,
}
use nah.Error.{Error, Result, ok, err, Reason, not_found, has_reason}
use nah.Kube.{GroupVersionKind, Object, Client}
use nah.Router.Handler.{Request, Response, Scope}
use nah.Router.Triggers.{TriggerKey, trigger_key_eq, Pending}
use nah.Router.Registry.{Registry, handles, handle_all}
use nah.Router.Save.{Saved, save}
use nah.Router.Limits.{Limits, Rate, check_delay, forget_backoff, trigger_prefix, replay_prefix}
use nah.Router.Handle.{Setup, Handled, handle, namespace_name}

-- An event's key without its prefixes, and where it is from.
pub record Source : Type 0 where
  pub key : Text
  pub from_trigger : Bool
  pub from_replay : Bool

abbrev without_trigger : Text → Source
without_trigger key =
    if has_prefix key trigger_prefix
    then record { key = trim_prefix key trigger_prefix; from_trigger = true; from_replay = false }
    else record { key = key; from_trigger = false; from_replay = false }

abbrev without_replay : Source → Source
without_replay ev =
    if has_prefix ev.key replay_prefix
    then record { key = trim_prefix ev.key replay_prefix; from_trigger = false; from_replay = true }
    else ev

unfoldable pub source_of : Text → Source
source_of key = without_replay (without_trigger key)

module _ {W L : Type 0} (setup : Setup W L) where
  abbrev pub forget_if_gone : GroupVersionKind → Text → Option Object → Limits L → Limits L
  forget_if_gone gvk key none limits = forget_backoff gvk key limits
  forget_if_gone gvk key (some o) limits = limits

  abbrev pub failed : Error → Pending → W → Handled W
  failed e pending w = record { object = none; failure = some e; world = w; pending = pending }

  abbrev pub handle_current :
      GroupVersionKind → Text → Bool → Limits L → Pending → Option Object → W → Handled W × Limits L
  handle_current gvk key from_trigger limits pending current w =
      (handle setup gvk key current from_trigger pending w, forget_if_gone gvk key current limits)

  -- What backend.Get answers takes the place of the event's object, unless there is no such object.
  abbrev pub on_read :
      GroupVersionKind
      → Text
      → Bool
      → Option Object
      → Limits L
      → Pending
      → Result Object × W
      → Handled W × Limits L
  on_read gvk key from_trigger obj limits pending (ok current, w) =
      handle_current gvk key from_trigger limits pending (some current) w
  on_read gvk key from_trigger obj limits pending (err e, w) =
      if not (has_reason not_found e)
      then (failed e pending w, limits)
      else handle_current gvk key from_trigger limits pending obj w

  abbrev pub on_new_type :
      GroupVersionKind
      → Text
      → Bool
      → Option Object
      → Limits L
      → Pending
      → W
      → Option Error
      → Handled W × Limits L
  on_new_type gvk key from_trigger obj limits pending w (some e) = (failed e pending w, limits)
  on_new_type gvk key from_trigger obj limits pending w none =
      let (ns, name) = namespace_name key (cut key (codes "/")) in
      on_read gvk key from_trigger obj limits pending (setup.backend.get gvk ns name w)

  -- The part of onChange behind the limit
  unfoldable pub proceed :
      GroupVersionKind → Text → Bool → Option Object → Limits L → Pending → W → Handled W × Limits L
  unfolding handle
  proceed gvk key from_trigger obj limits pending w =
      on_new_type gvk key from_trigger obj limits pending w (setup.scheme_new gvk)

  -- HandlerSet.onChange
  unfoldable pub on_change :
      ℕ → GroupVersionKind → Text → Option Object → Limits L → Pending → W → Handled W × Limits L
  unfolding source_of proceed check_delay
  on_change now gvk key obj limits pending w =
      let ev = source_of key in
      let (admitted, limits') =
        (if not ev.from_replay && not ev.from_trigger
          then check_delay setup.rate now gvk ev.key limits
          else (true, limits)) in
      if not admitted
      then (record { object = obj; failure = none; world = w; pending = pending }, limits')
      else proceed gvk ev.key ev.from_trigger obj limits' pending w
