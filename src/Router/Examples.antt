-- ===== src/Router/Examples.antt =====
-- The theorems of pkg/router at concrete inputs.
use nah.Prelude.{
  Text, codes, lookup, insert, delete, text_eq, text_discrete, [], ◌∷◌, ◌++◌, none, some, Bool,
  true, false, ◌||◌, ◌&&◌, ◌==◌, ◌≡◌, refl, ◌≢◌, ◌⊎◌, ◌↔◌, contains, if◌then◌else◌, ℕ, ◌+◌,
}
use nah.Error.{ok, api, conflict}
use nah.Kube.{GroupVersionKind, gvk_eq, gvk_discrete, Object, Client}
use nah.Samples.{config_map, deployment, object}
use nah.Router.Handler.{Request, Scope, Handler}
use nah.Router.Matcher.{LabelSelector, ObjectMatcher, matcher_string, matches}
use nah.Router.Matcher.Meaning.{ObjectFits, matches_iff}
use nah.Router.Triggers.{
  EnqueueTarget, target_eq, target_discrete, trigger_key_discrete, Matchers, Pending, registered,
  register, process, to_key,
}
use nah.Router.Triggers.Effect.{
  or_else, registered-register, gone, gone_by_name, registered-process,
}
use nah.Router.Triggers.Enqueued.{affects, process_iff}
use nah.Router.Filters.{RouteBuilder, route_handler, route_name_of, prefixed}
use nah.Router.Filters.Gate.{passes, inner, route_handler_lem}
use nah.Router.Finalizer.{finalizer_handler}
use nah.Router.Finalizer.Release.{finalizer_handler-keeps}

abbrev settings : Object
settings = object config_map (codes "prod") (codes "settings")

-- A type without fields, as most are.
abbrev no_fields : Object → Bool
no_fields obj = false

abbrev in_prod : LabelSelector
in_prod = record { string = codes "all"; matches = λ labels. true }

abbrev by_label : ObjectMatcher
by_label = record { namespace = codes "prod"; name = []; selector = some in_prod; fields = none }

abbrev by_name : ObjectMatcher
by_name = record {
  namespace = codes "prod";
  name = codes "settings";
  selector = none;
  fields = none;
}

matches_iff_example :
    (matches no_fields by_label (codes "prod") (codes "settings") (some settings) ≡ true) ↔ (
      (by_label.name ≢ [])
        × (by_label.name ≡ codes "settings")
        × (by_label.namespace ≡ codes "prod")
      ⊎ (by_label.name ≡ [])
        × ((by_label.namespace ≡ []) ⊎ (by_label.namespace ≡ codes "prod"))
        × ObjectFits no_fields by_label (some settings))
matches_iff_example =
    matches_iff no_fields by_label (codes "prod") (codes "settings") (some settings)

abbrev web : EnqueueTarget
web = record { key = codes "prod/web"; gvk = deployment }

abbrev watching : Matchers
unfolding register gvk_discrete target_discrete text_discrete
watching = register deployment (codes "prod/web") config_map by_name []

registered-register_example :
    registered
      (register deployment (codes "prod/web") config_map by_label watching)
      config_map
      web
      (matcher_string by_label)
    ≡ (if config_map == config_map
          && (web == web && matcher_string by_label == matcher_string by_label)
        then or_else (registered watching config_map web (matcher_string by_label)) by_label
        else registered watching config_map web (matcher_string by_label))
registered-register_example =
    registered-register deployment (codes "prod/web") config_map by_label watching config_map web
      (matcher_string by_label)

abbrev removal : Pending
removal =
    (record { name = codes "settings"; namespace = codes "prod"; gvk = config_map }, none) ∷ []

registered-process_example :
    registered (process no_fields removal watching).1 config_map web (matcher_string by_name) ≡ (
      if gone removal web || gone_by_name removal config_map (matcher_string by_name)
      then none
      else registered watching config_map web (matcher_string by_name))
registered-process_example =
    registered-process no_fields removal watching config_map web (matcher_string by_name)

-- The removal of the object wakes its watcher and ends the watch.
process-removal :
    ((process no_fields removal watching).0 ≡ web ∷ [])
    × (registered (process no_fields removal watching).1 config_map web (matcher_string by_name)
        ≡ none)
unfolding process register lookup insert delete matches matcher_string to_key gvk_discrete
    target_discrete trigger_key_discrete text_discrete
process-removal = (refl, refl)

process_iff_example : (contains (process no_fields removal watching).0 web ≡ true) ↔ (
    (g : GroupVersionKind) × (k : Text) × (mt : ObjectMatcher) × (registered watching g web k
      ≡ some mt)
    × (affects no_fields g mt removal ≡ true))
unfolding register insert lookup gvk_discrete target_discrete text_discrete
process_iff_example =
    process_iff no_fields removal watching web ((refl, tt), (((refl, tt), ((refl, tt), tt)), tt))

abbrev route : RouteBuilder ℕ
route = record {
  include_remove = false;
  include_finalizing = false;
  finalize_id = [];
  name = [];
  namespace = codes "prod";
  route_name = [];
  middleware = [];
  sel = none;
  field_selector = none;
}

abbrev request : Request
request = record {
  gvk = config_map;
  namespace = codes "prod";
  name = codes "settings";
  key = codes "prod/settings";
  from_trigger = false;
}

abbrev scope : Object → Scope ℕ
scope obj = record {
  object = some obj;
  response = record { delay = 0; attributes = [] };
  world = 0;
}

abbrev failing : Handler ℕ
failing req s = (some (api conflict), s)

abbrev counting : Handler ℕ
counting req s = (none, record s { world = s.world + 1 })

abbrev unchanged : Text → Handler ℕ → Handler ℕ
unchanged id h = h

route_handler_lem_example :
    route_handler no_fields unchanged (codes "main.go:12") route failing request (scope settings)
    ≡ (if passes no_fields route request (some settings)
        then prefixed
            (codes "[" ++ route_name_of (codes "main.go:12") route ++ codes "] ")
            (inner unchanged route failing request (scope settings))
        else (none, scope settings))
route_handler_lem_example =
    route_handler_lem no_fields unchanged (codes "main.go:12") route failing request
      (scope settings) (λ h. cc)

-- A client that counts the updates.
abbrev counter : Client ℕ
counter = record {
  get = λ gvk ns name w. (ok settings, w);
  create = λ obj w. (ok obj, w);
  update = λ obj w. (ok obj, w + 10);
  update_status = λ obj w. (ok obj, w);
  delete = λ gvk ns name w. (none, w);
}

abbrev doomed : Object
doomed = record settings { deletion_timestamp = some 3; finalizers = codes "mine" ∷ [] }

finalizer_handler-keeps_example :
    (finalizer_handler counter (codes "mine") failing request (scope doomed)).1.world ≡ 0
unfolding text_discrete
finalizer_handler-keeps_example =
    finalizer_handler-keeps counter (codes "mine") (λ w. w ≡ 0) failing request (scope doomed)
      doomed (λ obj w p. p) (λ q t p. p) refl refl (λ (first, done). cc done.0) refl
