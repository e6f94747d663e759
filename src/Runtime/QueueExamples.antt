-- ===== src/Runtime/QueueExamples.antt =====
-- pkg/runtime/controller.go and sharedhandler.go: two queues, and two registrations.
use nah.Prelude.{
  Text, codes, length, ltb, if◌then◌else◌, ◌==◌, nat_eq, List, [], ◌∷◌, ◌++◌, none, some, not,
  select, IsNodup, ◌≡◌, ℕ, arith,
}
use nah.Error.{Result, ok}
use nah.Kube.{Object}
use nah.Samples.{config_map, object}
use nah.Runtime.Keys.{key_func}
use nah.Runtime.Controller.{Queue, Splitter, run}
use nah.Runtime.Controller.Order.{Covers, calls_at, sent}
use nah.Runtime.Controller.Requests.{
  Request, by_key, by_name, by_object, perform_all, then_perform, waiting, running, starts_of,
  requests_lem,
}
use nah.Runtime.SharedHandler.{SharedHandler, OnChange, register, unregister}
use nah.Runtime.SharedHandler.Ids.{registered, Reachable, start, next, ids, unregister_lem}

abbrev two_queues : Splitter
two_queues = record { queues = 2; split = λ key. if ltb 8 (length key) then 1 else 0 }

abbrev namespaced : Object → Result Text
namespaced obj = ok (key_func obj.namespace obj.name)

two_queues-Covers : Covers two_queues 2
two_queues-Covers key = grind arith

abbrev early : List Request
early =
    by_key (codes "prod/a") 3 ∷ by_object (object config_map (codes "prod") (codes "settings")) ∷ []

abbrev late : List Request
late = by_name (codes "prod") (codes "b") 0 ∷ []

requests_lem_example :
    (qs : List Queue) × (then_perform two_queues namespaced
        (perform_all two_queues namespaced late)
        (then_perform two_queues namespaced
          (run two_queues)
          (perform_all two_queues namespaced early (waiting two_queues namespaced [])))
      ≡ some (running two_queues namespaced qs []))
    × (calls_at 0 qs
        ≡ sent two_queues 0
            (starts_of two_queues namespaced early ++ starts_of two_queues namespaced late))
requests_lem_example = requests_lem two_queues namespaced early late 0 two_queues-Covers

abbrev nothing : OnChange ℕ
nothing key obj w = (obj, none, w)

abbrev none_yet : SharedHandler ℕ
none_yet = record { id_counter = 0; handlers = [] }

abbrev one : SharedHandler ℕ
unfolding register
one = register (codes "a") nothing none_yet

abbrev two : SharedHandler ℕ
unfolding register
two = register (codes "b") nothing one

two_reached : Reachable two
unfolding register
two_reached =
    next one two (next none_yet one start (registered (codes "a") nothing (omega arith)))
      (registered (codes "b") nothing (omega arith))

unregister_lem_example :
    ((unregister 1 two).handlers ≡ select (λ e. not (e.id == 1)) two.handlers)
    × IsNodup (ids two.handlers)
unregister_lem_example = unregister_lem 1 two_reached
