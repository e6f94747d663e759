-- ===== src/Runtime/Factory.antt =====
-- pkg/runtime/sharedcontrollerfactory.go: the shared controllers by kind, and their start.
use nah.Prelude.{
  Map, lookup, insert, ◌==◌, nat_eq, if◌then◌else◌, [], ◌∷◌, Option, none, some, Bool, false, ℕ,
}
use nah.Error.{Error}
use nah.Kube.{GroupVersionKind, gvk_eq}
use nah.Runtime.Controller.{Splitter, single_queue}
use nah.Runtime.SharedController.{Informers, SharedController, start_shared}

-- The controllers, and the options that they are made with.
pub record Factory (W : Type 0) : Type 0 where
  pub controllers : Map GroupVersionKind (SharedController W)
  pub workers : ℕ
  pub kind_workers : Map GroupVersionKind ℕ
  pub kind_splitters : Map GroupVersionKind Splitter

-- DefaultThreadiness, where no number of workers is given: applyDefaultSharedOptions
unfoldable pub default_workers : ℕ → ℕ → ℕ
default_workers threadiness given = if given == 0 then threadiness else given

abbrev pub or_else_workers : ℕ → Option ℕ → ℕ
or_else_workers w none = w
or_else_workers w (some n) = n

abbrev pub or_single : Option Splitter → Splitter
or_single none = single_queue
or_single (some s) = s

module _ {W : Type 0} where
  -- getWorkers
  unfoldable pub get_workers : Factory W → GroupVersionKind → ℕ
  unfolding lookup
  get_workers f gvk = or_else_workers f.workers (lookup gvk f.kind_workers)

  -- A controller that is not made yet, without handlers
  abbrev pub new_shared : SharedController W
  new_shared = record {
    controller = none;
    handler = record { id_counter = 0; handlers = [] };
    started = false;
    start_error = none;
  }

  abbrev pub found_or_new :
      GroupVersionKind → Factory W → Option (SharedController W) → SharedController W × Factory W
  found_or_new gvk f (some c) = (c, f)
  found_or_new gvk f none =
      (new_shared, record f { controllers = insert gvk new_shared f.controllers })

  -- ForKind
  unfoldable pub for_kind : GroupVersionKind → Factory W → SharedController W × Factory W
  unfolding lookup insert
  for_kind gvk f = found_or_new gvk f (lookup gvk f.controllers)

  abbrev pub after_one :
      GroupVersionKind
      → (Factory W → W → Option (Option Error × Factory W × W))
      → Factory W
      → Option (Option Error × SharedController W × W)
      → Option (Option Error × Factory W × W)
  after_one gvk rest f none = none
  after_one gvk rest f (some (some e, c, w)) =
      some (some e, record f { controllers = insert gvk c f.controllers }, w)
  after_one gvk rest f (some (none, c, w)) =
      rest (record f { controllers = insert gvk c f.controllers }) w

  -- The loop of loadAndStart over the copy of the controllers, in an order of their kinds; the
  -- number of workers is given to the goroutine of each controller, which starts with its queues.
  unfoldable pub start_each :
      Informers W
      → Map GroupVersionKind (SharedController W)
      → Factory W
      → W
      → Option (Option Error × Factory W × W)
  unfolding start_shared lookup insert
  start_each informers [] f w = some (none, f, w)
  start_each informers ((gvk, c) ∷ cs) f w =
      after_one gvk (start_each informers cs) f
        (start_shared informers (or_single (lookup gvk f.kind_splitters)) c w)

  -- loadAndStart, once the cache has synced: Preload and Start
  unfoldable pub load_and_start :
      Informers W → Bool → Factory W → W → Option (Option Error × Factory W × W)
  unfolding start_each
  load_and_start informers start f w =
      if start then start_each informers f.controllers f w else some (none, f, w)
