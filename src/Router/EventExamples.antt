-- ===== src/Router/EventExamples.antt =====
-- pkg/router/handler.go and handlers.go: one key's events at small inputs.
use nah.Prelude.{
  Text, codes, text_eq, text_discrete, lookup, insert, strip, has_prefix, cut, if◌then◌else◌, [],
  ◌∷◌, ◌++◌, none, some, true, false, ℕ, ◌+◌, ◌≡◌, refl, is_some, contains, All, List,
}
use nah.Error.{ok, api, conflict}
use nah.Error.Merr.{new_errors}
use nah.Kube.{gvk_eq, gvk_discrete, Object, Client}
use nah.Samples.{config_map, object}
use nah.Router.Handler.{Handler}
use nah.Router.Triggers.{TriggerKey, trigger_key_eq, trigger_key_discrete}
use nah.Router.Registry.{handles, handle_all, Runs, run_all}
use nah.Router.Registry.{handle_all-Runs}
use nah.Router.Limits.{
  Rate, Limits, LimiterKey, limiter_key_eq, limiter_key_discrete, no_limits, check_delay, wake,
  replay_prefix, trigger_prefix,
}
use nah.Router.Limits.Waiting.{
  Reachable, start, next, event, Step, sleepers, reachable-sleepers, check_delay-replays,
}
use nah.Router.Handle.{Setup, handle, new_request, first_scope, run_handlers}
use nah.Router.Handle.Outcome.{handle-pending}
use nah.Router.Finalizer.{status_changed}
use nah.Router.OnChange.{on_change}
use nah.Router.OnChange.Replay.{IsBare, on_change-replay}

-- A limiter that lets one event through: its delay grows by one with each.
abbrev growing : Rate ℕ
growing = record { new_limiter = 0; reserve = λ now l. (l, l + 1) }

abbrev bare_key : Text
bare_key = codes "prod/settings"

abbrev limiter_key : LimiterKey
limiter_key = record { key = bare_key; gvk = config_map }

abbrev once : Limits ℕ
once = (check_delay growing 5 config_map bare_key no_limits).1

abbrev once_reachable : Reachable growing once
once_reachable = next no_limits once start (event 5 config_map bare_key)

reachable-sleepers_example :
    sleepers limiter_key once.sleeping
    ≡ (if is_some (lookup limiter_key once.waiting) then 1 else 0)
reachable-sleepers_example = reachable-sleepers growing limiter_key once_reachable

abbrev twice : Limits ℕ
twice = (check_delay growing 6 config_map bare_key once).1

check_delay-replays_example :
    Step growing twice (wake limiter_key twice)
    × (lookup limiter_key (wake limiter_key twice).waiting ≡ none)
    × (contains (wake limiter_key twice).sleeping limiter_key ≡ false)
    × ((wake limiter_key twice).replayed
        ≡ record limiter_key { key = replay_prefix ++ bare_key } ∷ twice.replayed)
unfolding check_delay insert lookup limiter_key_discrete gvk_discrete text_discrete
check_delay-replays_example = check_delay-replays growing 6 config_map bare_key once_reachable refl

abbrev settings : Object
settings = object config_map (codes "prod") (codes "settings")

-- The world counts the writes.
abbrev client : Client ℕ
client = record {
  get = λ gvk ns name w. (ok settings, w);
  create = λ obj w. (ok obj, w + 1);
  update = λ obj w. (ok obj, w + 1);
  update_status = λ obj w. (ok obj, w + 1);
  delete = λ gvk ns name w. (none, w + 1);
}

abbrev setup_of : Handler ℕ → Setup ℕ ℕ
setup_of h = record {
  request_client = client;
  backend = client;
  enqueue = λ gvk key delay w. (none, w + 1);
  scheme_new = λ gvk. none;
  rate = growing;
  handlers = (config_map, h ∷ []) ∷ [];
  on_error = none;
}

abbrev touching : Handler ℕ
touching req s = (none, record s { world = s.world + 10 })

abbrev failing : Handler ℕ
failing req s = (some (api conflict), record s { world = s.world + 10 })

abbrev settings_key : TriggerKey
settings_key = record { name = codes "settings"; namespace = codes "prod"; gvk = config_map }

handle-pending_example :
    lookup settings_key
      (handle (setup_of touching) config_map bare_key (some settings) false [] 0).pending
    ≡ some (some settings)
unfolding run_handlers handles handle_all run_all new_request lookup gvk_discrete text_discrete cut
    strip new_errors trigger_key_discrete
handle-pending_example =
    handle-pending (setup_of touching) config_map bare_key (some settings) false [] 0 settings_key

-- The world is the objects whose status was written.
abbrev writer : Client (List Object)
writer = record {
  get = λ gvk ns name w. (ok settings, w);
  create = λ obj w. (ok obj, w);
  update = λ obj w. (ok obj, w);
  update_status = λ obj w. (ok obj, obj ∷ w);
  delete = λ gvk ns name w. (none, w);
}

abbrev reporting : Handler (List Object)
reporting req s = (none, record s { object = some (record settings { status = codes "ready" }) })

abbrev reporting_setup : Setup (List Object) ℕ
reporting_setup = record {
  request_client = writer;
  backend = writer;
  enqueue = λ gvk key delay w. (none, w);
  scheme_new = λ gvk. none;
  rate = growing;
  handlers = (config_map, reporting ∷ []) ∷ [];
  on_error = none;
}

-- Only objects whose status is not that of the settings were written.
abbrev AllChanged : List Object → Type 0
AllChanged w = All (λ (obj : Object). status_changed settings obj ≡ true) w

bare_key-IsBare : IsBare bare_key
unfolding has_prefix strip text_discrete
bare_key-IsBare = record { no_trigger = refl; no_replay = refl }

on_change-replay_example :
    let setup = setup_of touching in
    let limits = (check_delay growing 5 config_map bare_key no_limits).1 in
    (on_change setup 5 config_map bare_key none no_limits [] 0
      ≡ on_change setup 7 config_map (replay_prefix ++ bare_key) none limits [] 0)
    × (on_change setup 7 config_map (trigger_prefix ++ (replay_prefix ++ bare_key)) none limits [] 0
        ≡ on_change setup 7 config_map (replay_prefix ++ bare_key) none limits [] 0)
unfolding check_delay lookup
on_change-replay_example =
    on_change-replay (setup_of touching) 5 7 config_map bare_key none no_limits [] 0 bare_key-IsBare

handle_all-Runs_example :
    Runs
      (touching ∷ [])
      (new_request config_map bare_key false)
      (first_scope (setup_of touching) (some settings) 0)
      (first_scope (setup_of touching) (some settings) 10)
unfolding handle_all run_all lookup gvk_discrete text_discrete new_errors new_request
handle_all-Runs_example =
    handle_all-Runs ((config_map, touching ∷ []) ∷ []) (new_request config_map bare_key false)
      (first_scope (setup_of touching) (some settings) 0) refl
