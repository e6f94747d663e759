-- ===== src/Router/Start.antt =====
-- pkg/router/router.go and healthz.go: the start of a router, alone or as a leader, and its health;
-- with Run of pkg/leader/leader.go.
use nah.Prelude.{
  Text, codes, Map, insert, text_eq, ◌==◌, if◌then◌else◌, List, [], ◌∷◌, Option, none, some, Bool,
  true, false, not, ◌||◌, ltb, ℕ,
}
use nah.Error.{Error, Result, ok, err}

-- The variable healthz: the health of each router, and its server.
pub record Healths : Type 0 where
  pub healths : Map Text Bool
  pub started : Bool
  pub port : ℕ

unfoldable pub set_healthy : Text → Bool → Healths → Healths
unfolding insert
set_healthy name healthy h = record h { healths = insert name healthy h.healths }

-- setPort: the first port that is set stays
unfoldable pub set_port : ℕ → Healths → Healths
set_port port h = if ltb 0 h.port then h else record h { port = port }

unfoldable pub all_healthy : Map Text Bool → Bool
all_healthy [] = true
all_healthy ((k, healthy) ∷ hs) = let rest = all_healthy hs in if not healthy then false else rest

abbrev pub is_empty_map : Map Text Bool → Bool
is_empty_map [] = true
is_empty_map (e ∷ hs) = false

-- GetHealthy
unfoldable pub get_healthy : Healths → Bool
unfolding all_healthy
get_healthy h = if not (all_healthy h.healths) then false else not (is_empty_map h.healths)

-- startHealthz: whether it starts a server
unfoldable pub start_healthz : Healths → Bool × Healths
start_healthz h =
    if h.started || not (ltb 0 h.port) then (false, h) else (true, record h { started = true })

-- The channel that says that the router has stopped: it is open, or closed.
pub data Signal : Type 0 where
  absent unclosed closed : Signal

pub record RouterState (W : Type 0) : Type 0 where
  pub healths : Healths
  pub signal : Signal
  pub world : W

abbrev pub make_signal : Signal → Signal
make_signal absent = unclosed
make_signal unclosed = unclosed
make_signal closed = closed

-- done: to close a channel twice panics, which is `none`.
unfoldable pub close_signal : Signal → Option Signal
close_signal absent = some absent
close_signal unclosed = some closed
close_signal closed = none

module _ {W : Type 0} (name : Text) (handlers_start : W → Option Error × W)
    (post_starts : List (W → W)) where
  unfoldable pub run_post_starts : List (W → W) → W → W
  run_post_starts [] w = w
  run_post_starts (f ∷ fs) w = run_post_starts fs (f w)

  abbrev pub after_start : Option Error × W → Option Error × W
  after_start (some e, w) = (some e, w)
  after_start (none, w) = (none, run_post_starts post_starts w)

  -- startHandlers: the argument of the deferred setHealthy is computed at once, when there is no
  -- error yet.
  unfoldable pub start_handlers : RouterState W → Option Error × RouterState W
  unfolding set_healthy run_post_starts
  start_handlers r =
      let (e, w) = after_start (handlers_start r.world) in
      (
        e,
        record {
          healths = set_healthy name true (set_healthy name false r.healths);
          signal = make_signal r.signal;
          world = w;
        },
      )

  abbrev pub preloaded : RouterState W → Option Error × W → Option (RouterState W)
  preloaded r (some e, w) = none
  preloaded r (none, w) =
      some
        (record r { healths = set_healthy name true (set_healthy name false r.healths); world = w })

  -- The callback for a new leader: the caches are filled. A failure ends the program: `none`.
  unfoldable pub on_new_leader :
      (W → Option Error × W) → Text → Text → RouterState W → Option (RouterState W)
  unfolding set_healthy
  on_new_leader preload id leader r = if id == leader then some r else preloaded r (preload r.world)

  -- ElectionConfig.Run, without a config and with one of a namespace. elect stands for the run of
  -- the election by the library, with the error that Run makes of that of run.
  unfoldable pub run_election :
      Option Text
      → (Text → RouterState W → Option Error × RouterState W)
      → RouterState W
      → Option Error × RouterState W
  unfolding start_handlers
  run_election none elect r = start_handlers r
  run_election (some namespace) elect r =
      elect (if namespace == [] then codes "kube-system" else namespace) r

  -- Router.Start, on the name of the host
  unfoldable pub start_router :
      Result Text
      → Option Text
      → (Text → Text → RouterState W → Option Error × RouterState W)
      → RouterState W
      → Option Error × RouterState W
  unfolding start_healthz run_election
  start_router (err e) namespace elect r = (some e, r)
  start_router (ok id) namespace elect r =
      run_election namespace (elect id) (record r { healths = (start_healthz r.healths).1 })
