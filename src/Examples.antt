-- ===== src/Examples.antt =====
-- The theorems of pkg/watcher, pkg/webhook and pkg/mapper at concrete inputs, and tests of the start
-- of a router, of the error condition, and of maps in order.
use nah.Prelude.{
  Text, codes, Map, IsMap, IsSorted, IsNodup, keys, text_eq, text_discrete, lookup, insert, List,
  [], ◌∷◌, Option, none, some, Bool, true, false, ℕ, zero, suc, ◌<◌, ◌≡◌, refl, arith, is_some,
  sort_by, text_ltb,
}
use nah.Error.{
  not_found, has_reason, reason_discrete, Error, Result, ok, err, api, internal, message,
}
use nah.Kube.{gk_eq, Object}
use nah.Samples.{config_map, object}
use nah.Watcher.{Event, modified, retry_watch}
use nah.Watcher.Ends.{retry_watch_ends}
use nah.Webhook.{
  AdmissionRequest, RouteMatch, Handler, initial_response, matches, admit, admit_route,
  check_string, check_bool, serve_http,
}
use nah.Webhook.Routes.{IsAllowedBy, serve_http-allowed}
use nah.Mapper.{Discovered, gk_key_eq, with_client, lookup_or_ask}
use nah.Router.Start.{RouterState, absent, start_handlers, set_healthy, get_healthy, all_healthy}
use nah.Conditions.{Condition, Marks, error_middleware, logged}
use nah.Typed.{sorted, sorted_keys, merge}
use nah.Typed.Sorted.{sorted_lem, merge_lem}
use nah.Mapper.Answers.{lookup_or_ask-again}

-- A context that allows some waits, a callback that is never done, and a watch that breaks.
abbrev never_done : Object → ℕ → (Bool × Option Error) × ℕ
never_done obj w = ((false, none), w)

abbrev breaking : Text → ℕ → Result (List Event) × ℕ
breaking revision w = (ok (modified (object config_map (codes "prod") (codes "settings")) ∷ []), w)

abbrev waiting : ℕ → Option Error × ℕ
waiting zero = (some (message (codes "context canceled")), zero)
waiting (suc w) = (none, w)

waiting_left : (w w' : ℕ) → waiting w ≡ (none, w') → w' < w
waiting_left zero w' h = cc
waiting_left (suc w) w' h = let e : w ≡ w' = cc in omega (arith, e)

retry_watch_ends_example :
    is_some (retry_watch 5 never_done breaking waiting 4 (codes "7") 3) ≡ true
retry_watch_ends_example =
    retry_watch_ends 5 never_done breaking waiting (λ w. w) (λ obj w. omega arith)
      (λ revision w. omega arith) waiting_left (codes "7") 3

abbrev allow : Handler ℕ
allow response request w = ((none, record response { allowed = true }), suc w)

abbrev any_route : RouteMatch ℕ
any_route = record {
  handler = some allow;
  kind = [];
  resource = [];
  version = [];
  sub_resource = [];
  dry_run = none;
  group = [];
  name = [];
  namespace = [];
  operation = [];
}

abbrev deletes_only : RouteMatch ℕ
deletes_only = record any_route { operation = codes "DELETE" }

abbrev creation : AdmissionRequest
creation = record {
  uid = codes "1";
  request_kind = none;
  request_resource = none;
  sub_resource = [];
  name = codes "settings";
  namespace = codes "prod";
  operation = codes "CREATE";
  dry_run = none;
  object = [];
}

serve_http-allowed_example :
    IsAllowedBy creation (deletes_only ∷ any_route ∷ []) (initial_response creation) 0
unfolding serve_http admit admit_route matches check_string check_bool text_discrete
serve_http-allowed_example =
    serve_http-allowed creation (codes "v1, Kind=ConfigMap") (deletes_only ∷ any_route ∷ []) 0 refl

-- A discovery that numbers its answers.
abbrev numbering : ℕ → Result ℕ × ℕ
numbering w = (ok (suc w), suc w)

abbrev numbered : ℕ → Discovered
numbered version = record {
  kinds_for = λ r. ok (config_map ∷ []);
  resources_for = λ r. ok (r ∷ []);
  mappings = λ gk. ok [];
  singularizer = λ name. ok name;
}

abbrev is_zero : ℕ → Bool
is_zero zero = true
is_zero (suc n) = false

abbrev cached_name : Map Text Text
cached_name = (codes "pods", codes "pod") ∷ []

asks :
    lookup_or_ask is_zero numbering numbered (codes "pods") (λ m. ok (codes "pod")) [] (0, 0)
    ≡ ((ok (codes "pod"), cached_name), (1, 1))
unfolding lookup_or_ask with_client lookup insert text_discrete
asks = refl

lookup_or_ask-again_example :
    lookup_or_ask is_zero numbering numbered
      (codes "pods")
      (λ m. err (api internal))
      cached_name
      (5, 5)
    ≡ ((ok (codes "pod"), cached_name), (5, 5))
lookup_or_ask-again_example =
    lookup_or_ask-again is_zero numbering numbered (codes "pods") (λ m. ok (codes "pod"))
      (λ m. err (api internal)) [] cached_name (0, 0) (1, 1) (5, 5) (codes "pod") asks

-- A router whose handlers fail to start is healthy all the same.
abbrev started_badly : Option Error × RouterState ℕ
unfolding start_handlers insert text_discrete
started_badly =
    start_handlers (codes "r") (λ w. (some (api internal), w)) []
      (record {
        healths = record { healths = []; started = false; port = 0 };
        signal = absent;
        world = 0;
      })

failed_is_healthy : get_healthy started_badly.1.healths ≡ true
unfolding get_healthy all_healthy started_badly start_handlers set_healthy insert
failed_is_healthy = refl

-- A library that keeps one condition, with no more than its status.
abbrev keep_one : Condition → List Condition → List Condition
keep_one c cs = c ∷ []

abbrev head_of : List Condition → Option Condition
head_of [] = none
head_of (c ∷ cs) = some c

abbrev unmarked : Marks ℕ
unmarked = record { conditions = []; generation = 1; existing = none; errored = false; rest = 0 }

missing_becomes_condition :
    (error_middleware keep_one
      (λ kind cs. head_of cs)
      (λ e. none)
      (λ e. codes "StatusError")
      (λ e. codes "gone")
      (λ s. (some (api not_found), s))
      unmarked).0
    ≡ none
unfolding error_middleware logged has_reason reason_discrete
missing_becomes_condition = refl

abbrev two_entries : Map Text ℕ
two_entries = (codes "b", 1) ∷ (codes "a", 2) ∷ []

in_order : sorted two_entries ≡ (codes "a", 2) ∷ (codes "b", 1) ∷ []
unfolding sorted sorted_keys sort_by text_ltb lookup text_discrete
in_order = refl

two_entries-IsMap : IsMap two_entries
unfolding text_discrete
two_entries-IsMap = (refl, (refl, tt))

abbrev second_map : Map Text ℕ
second_map = (codes "b", 3) ∷ []

sorted_lem_example :
    IsSorted (λ k. k) (keys (sorted two_entries))
    × IsNodup (keys (sorted two_entries))
    × ((k : Text) → lookup k (sorted two_entries) ≡ lookup k two_entries)
sorted_lem_example = sorted_lem two_entries two_entries-IsMap

merge_lem_example : lookup (codes "b") (merge two_entries second_map) ≡ some 3
unfolding lookup text_discrete
merge_lem_example = merge_lem two_entries second_map (codes "b") two_entries-IsMap (refl, tt)
