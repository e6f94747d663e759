-- ===== src/Runtime/SharedController.antt =====
-- pkg/runtime/sharedcontroller.go, errorcontroller.go and transaction.go: a controller that is made
-- when it is first used, its start, and the registration of a handler; with Start of controller.go.
use nah.Prelude.{
  Text, codes, text_eq, if◌then◌else◌, List, [], ◌∷◌, ◌++◌, Option, none, some, Bool, true, false,
  ℕ, is_some,
}
use nah.Error.{Error, message, Result, ok, err}
use nah.Kube.{Object}
use nah.Runtime.Keys.{key_func}
use nah.Runtime.Controller.{
  Controller, Splitter, run, enqueue_key, enqueue_key_after, enqueue_after,
}
use nah.Runtime.SharedHandler.{SharedHandler, OnChange, register}

-- controller, with what its start has done. The queues are made by run.
pub record Startable : Type 0 where
  pub queues : Controller
  pub has_informer : Bool
  pub is_registered : Bool
  pub started : Bool

-- The informer, its event handler, and WaitForCacheSync are the library's.
pub record Informers (W : Type 0) : Type 0 where
  pub get_informer : W → Option Error × W
  pub add_event_handler : W → Option Error × W
  pub wait_for_sync : W → Bool × W

module _ {W : Type 0} (informers : Informers W) (splitter : Splitter) where
  abbrev pub ran : Startable → W → Option Controller → Option (Option Error × Startable × W)
  ran c w none = none
  ran c w (some queues) = some (none, record c { queues = queues; started = true }, w)

  abbrev pub synced : Startable → Bool × W → Option (Option Error × Startable × W)
  synced c (false, w) = some (some (message (codes "failed to wait for caches to sync")), c, w)
  synced c (true, w) = ran c w (run splitter c.queues)

  abbrev pub after_registration :
      Startable → Option Error × W → Option (Option Error × Startable × W)
  after_registration c (some e, w) = some (some e, c, w)
  after_registration c (none, w) =
      synced (record c { is_registered = true }) (informers.wait_for_sync w)

  abbrev pub after_informer : Startable → Option Error × W → Option (Option Error × Startable × W)
  after_informer c (some e, w) = some (some e, c, w)
  after_informer c (none, w) =
      after_registration (record c { has_informer = true })
        (if c.is_registered then (none, w) else informers.add_event_handler w)

  -- controller.Start: its error, and the controller. A panic of run is `none`.
  unfoldable pub start_controller : Startable → W → Option (Option Error × Startable × W)
  unfolding run
  start_controller c w =
      if c.started
      then some (none, c, w)
      else after_informer c (if c.has_informer then (none, w) else informers.get_informer w)

-- A controller, or the errorController, whose enqueues do nothing and whose start succeeds.
pub data Inner : Type 0 where
  proper : Startable → Inner
  failing : Error → Inner

pub record SharedController (W : Type 0) : Type 0 where
  pub controller : Option Inner
  pub handler : SharedHandler W
  pub started : Bool
  pub start_error : Option Error

module _ {W : Type 0} where
  abbrev pub made : SharedController W → Result Startable → Inner × SharedController W
  made s (ok c) = (proper c, record s { controller = some (proper c); start_error = none })
  made s (err e) = (failing e, record s { controller = some (failing e); start_error = some e })

  abbrev pub init_from :
      SharedController W
      → Option Inner
      → (W → Result Startable × W)
      → W
      → (Inner × SharedController W) × W
  init_from s (some c) deferred w = ((c, s), w)
  init_from s none deferred w = let (r, w') = deferred w in (made s r, w')

  -- initController; the deferred function makes the controller
  unfoldable pub init_controller :
      (W → Result Startable × W) → SharedController W → W → (Inner × SharedController W) × W
  init_controller deferred s w = init_from s s.controller deferred w

  abbrev pub with_inner :
      SharedController W → Startable → Option Controller → Option (SharedController W)
  with_inner s c none = none
  with_inner s c (some queues) =
      some (record s { controller = some (proper (record c { queues = queues })) })

  abbrev pub with_world : W → Option (SharedController W) → Option (SharedController W × W)
  with_world w none = none
  with_world w (some s) = some (s, w)

  abbrev pub enqueued :
      (Controller → Option Controller)
      → (Inner × SharedController W) × W
      → Option (SharedController W × W)
  enqueued call ((failing e, s), w) = some (s, w)
  enqueued call ((proper c, s), w) = with_world w (with_inner s c (call c.queues))

  -- EnqueueKey, EnqueueKeyAfter and EnqueueAfter; Enqueue is EnqueueAfter without a delay
  module _ (deferred : W → Result Startable × W) (splitter : Splitter) where
    unfoldable pub shared_enqueue_key :
        Text → SharedController W → W → Option (SharedController W × W)
    unfolding init_controller enqueue_key
    shared_enqueue_key key s w = enqueued (enqueue_key splitter key) (init_controller deferred s w)

    unfoldable pub shared_enqueue_key_after :
        Text → ℕ → SharedController W → W → Option (SharedController W × W)
    unfolding init_controller enqueue_key_after
    shared_enqueue_key_after key delay s w =
        enqueued (enqueue_key_after splitter key delay) (init_controller deferred s w)

    unfoldable pub shared_enqueue_after :
        Text → Text → ℕ → SharedController W → W → Option (SharedController W × W)
    unfolding init_controller enqueue_after
    shared_enqueue_after namespace name delay s w =
        enqueued (enqueue_after splitter namespace name delay) (init_controller deferred s w)

    abbrev pub then_enqueue :
        (SharedController W → W → Option (SharedController W × W))
        → Option (SharedController W × W)
        → Option (SharedController W × W)
    then_enqueue rest none = none
    then_enqueue rest (some (s, w)) = rest s w

    -- Enqueues for every object of a list
    unfoldable pub enqueue_all :
        List Object → SharedController W → W → Option (SharedController W × W)
    unfolding shared_enqueue_key
    enqueue_all [] s w = some (s, w)
    enqueue_all (obj ∷ objs) s w =
        then_enqueue (enqueue_all objs) (shared_enqueue_key (key_func obj.namespace obj.name) s w)

    abbrev pub enqueue_listed :
        SharedController W → Result (List Object) × W → Option (SharedController W × W)
    enqueue_listed s (err e, w) = some (s, w)
    enqueue_listed s (ok objs, w) = enqueue_all objs s w

    -- The function that RegisterHandler gives to the transaction. Where the list fails, it cancels
    -- the registration, which ends by the step unregister of SharedHandler when the goroutine that
    -- waits for that runs; RegisterHandler returns no error.
    unfoldable pub register_now :
        (W → Result (List Object) × W)
        → Text
        → OnChange W
        → SharedController W
        → W
        → Option (SharedController W × W)
    unfolding register enqueue_all
    register_now list name f s w =
        let s' = record s { handler = register name f s.handler } in
        if s.started then enqueue_listed s' (list w) else some (s', w)

    -- RegisterHandler without a transaction
    unfoldable pub register_handler :
        (W → Result (List Object) × W)
        → Text
        → OnChange W
        → SharedController W
        → W
        → Option (SharedController W × W)
    unfolding init_controller register_now
    register_handler list name f s w =
        let ((c, s'), w') = init_controller deferred s w in register_now list name f s' w'

  abbrev pub started_inner :
      SharedController W
      → Option (Option Error × Startable × W)
      → Option (Option Error × SharedController W × W)
  started_inner s none = none
  started_inner s (some (some e, c, w)) =
      some (some e, record s { controller = some (proper c) }, w)
  started_inner s (some (none, c, w)) =
      some (none, record s { controller = some (proper c); started = true }, w)

  abbrev pub start_inner :
      Informers W
      → Splitter
      → SharedController W
      → W
      → Option Inner
      → Option (Option Error × SharedController W × W)
  start_inner informers splitter s w none = some (s.start_error, s, w)
  start_inner informers splitter s w (some (failing e)) =
      some (none, record s { started = true }, w)
  start_inner informers splitter s w (some (proper c)) =
      started_inner s (start_controller informers splitter c w)

  -- sharedController.Start
  unfoldable pub start_shared :
      Informers W
      → Splitter
      → SharedController W
      → W
      → Option (Option Error × SharedController W × W)
  unfolding start_controller
  start_shared informers splitter s w =
      if is_some s.start_error
      then some (s.start_error, s, w)
      else if s.started
      then some (none, s, w)
      else start_inner informers splitter s w s.controller

-- HandlerTransaction: what is to be done, in order, on the state S that it changes.
abbrev pub Transaction : Type 0 → Type 0
Transaction S = List (S → S)

module _ {S : Type 0} where
  -- do, without a transaction and with one
  unfoldable pub do_or_defer : (S → S) → Option (Transaction S) → S → Option (Transaction S) × S
  do_or_defer f none s = (none, f s)
  do_or_defer f (some todo) s = (some (todo ++ f ∷ []), s)

  -- Commit and Rollback
  unfoldable pub run_todo : Transaction S → S → S
  run_todo [] s = s
  run_todo (f ∷ fs) s = run_todo fs (f s)

  unfoldable pub commit : Transaction S → S → Transaction S × S
  unfolding run_todo
  commit todo s = ([], run_todo todo s)

  unfoldable pub rollback : Transaction S → S → Transaction S × S
  rollback todo s = ([], s)
