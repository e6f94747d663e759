-- ===== src/Runtime/Controller.antt =====
-- pkg/runtime/controller.go: the work queues of a controller, the keys that wait for them, and what
-- is done with one item of a queue.
pub mod Order
pub mod Requests
use nah.Prelude.{
  Text, codes, text_eq, nat_eq, ◌==◌, if◌then◌else◌, length, List, [], ◌∷◌, ◌++◌, Option, none,
  some, Bool, true, false, not, ◌&&◌, ℕ, zero, suc, ◌+◌, ◌/◌,
}
use nah.Error.{Error, message, Result, ok, err, not_found, has_reason}
use nah.Kube.{GroupVersionKind, Object, Client}
use nah.Runtime.Keys.{key_func, key_parse, is_special_key}

-- An item of a queue; the queues are typed by `any`.
pub data Item : Type 0 where
  text : Text → Item
  other : ℕ → Item

-- What is called on a queue. A queue stands for the calls made on it, in order.
pub data QueueCall : Type 0 where
  add : Text → QueueCall
  add_after : Text → ℕ → QueueCall
  add_rate_limited : Text → QueueCall
  forget : Item → QueueCall
  finished : Item → QueueCall

abbrev pub Queue : Type 0
Queue = List QueueCall

pub record StartKey : Type 0 where
  pub key : Text
  pub after : ℕ

pub record Controller : Type 0 where
  pub workqueues : Option (List Queue)
  pub start_keys : List StartKey

-- WorkerQueueSplitter
pub record Splitter : Type 0 where
  pub queues : ℕ
  pub split : Text → ℕ

-- singleWorkerQueueSplitter
abbrev pub single_queue : Splitter
single_queue = record { queues = 1; split = λ key. 0 }

abbrev cons_to : Queue → Option (List Queue) → Option (List Queue)
cons_to q none = none
cons_to q (some qs) = some (q ∷ qs)

-- c.workqueues[i].Add(…) or alike; an index out of range panics, which is `none`.
unfoldable pub push_at : ℕ → QueueCall → List Queue → Option (List Queue)
push_at i call [] = none
push_at zero call (q ∷ qs) = some ((q ++ call ∷ []) ∷ qs)
push_at (suc i) call (q ∷ qs) = cons_to q (push_at i call qs)

unfoldable pub empty_queues : ℕ → List Queue
empty_queues zero = []
empty_queues (suc n) = [] ∷ empty_queues n

module _ (splitter : Splitter) where
  abbrev pub with_queues : Controller → Option (List Queue) → Option Controller
  with_queues c none = none
  with_queues c (some qs) = some (record c { workqueues = some qs })

  abbrev pub start_or_push :
      Controller → StartKey → QueueCall → Option (List Queue) → Option Controller
  start_or_push c start call none = some (record c { start_keys = c.start_keys ++ start ∷ [] })
  start_or_push c start call (some qs) = with_queues c (push_at (splitter.split start.key) call qs)

  -- EnqueueKeyAfter and EnqueueKey
  unfoldable pub enqueue_key_after : Text → ℕ → Controller → Option Controller
  unfolding push_at
  enqueue_key_after key after c =
      start_or_push c (record { key = key; after = after }) (add_after key after) c.workqueues

  unfoldable pub enqueue_key : Text → Controller → Option Controller
  unfolding enqueue_key_after
  enqueue_key key c = enqueue_key_after key 0 c

  -- EnqueueAfter and Enqueue
  unfoldable pub enqueue_after : Text → Text → ℕ → Controller → Option Controller
  unfolding push_at key_func
  enqueue_after namespace name duration c =
      let key = key_func namespace name in
      start_or_push c (record { key = key; after = duration }) (add_after key duration) c.workqueues

  -- enqueue, on what MetaNamespaceKeyFunc makes of an object
  abbrev pub enqueue_named : Result Text → Controller → Option Controller
  enqueue_named (err e) c = some c
  enqueue_named (ok key) c =
      start_or_push c (record { key = key; after = 0 }) (add key) c.workqueues

  unfoldable pub enqueue : (Object → Result Text) → Object → Controller → Option Controller
  unfolding push_at
  enqueue namespace_key obj c = enqueue_named (namespace_key obj) c

  -- The call for a start key in run
  abbrev pub start_call : StartKey → QueueCall
  start_call start = if start.after == 0 then add start.key else add_after start.key start.after

  abbrev pub push_next :
      (List Queue → Option (List Queue)) → Option (List Queue) → Option (List Queue)
  push_next rest none = none
  push_next rest (some qs) = rest qs

  unfoldable pub push_starts : List StartKey → List Queue → Option (List Queue)
  unfolding push_at
  push_starts [] qs = some qs
  push_starts (start ∷ starts) qs =
      push_next (push_starts starts) (push_at (splitter.split start.key) (start_call start) qs)

  abbrev pub started : Option (List Queue) → Option Controller
  started none = none
  started (some qs) = some (record { workqueues = some qs; start_keys = [] })

  -- The part of run that makes the queues
  unfoldable pub run : Controller → Option Controller
  unfolding push_starts empty_queues
  run c = started (push_starts c.start_keys (empty_queues splitter.queues))

-- runWorkers: how many items of each queue may be handled at once
unfoldable pub workers_per_queue : ℕ → ℕ → ℕ
workers_per_queue workers queues = if workers / queues == 0 then 1 else workers / queues

-- error_text is Error() of an error.
module _ {W : Type 0} (error_text : Error → Text) (gvk : GroupVersionKind) (cache : Client W)
    (on_change : Text → Option Object → W → Option Error × W) where
  abbrev pub on_cached : Text → Result Object × W → Option Error × W
  on_cached key (ok obj, w) = on_change key (some obj) w
  on_cached key (err e, w) = if has_reason not_found e then on_change key none w else (some e, w)

  -- syncHandler
  unfoldable pub sync_handler : Text → W → Option Error × W
  unfolding is_special_key key_parse
  sync_handler key w =
      let (namespace, name) = key_parse key in
      if is_special_key key
      then on_change key none w
      else on_cached key (cache.get gvk namespace name w)

  abbrev pub item_calls : Text → Option Error → Queue
  item_calls key (some e) = add_rate_limited key ∷ []
  item_calls key none = forget (text key) ∷ []

  abbrev pub requeuing : Text → Option Error → Option Error
  requeuing key none = none
  requeuing key (some e) = some (
      message
        (codes "error syncing '" ++ key ++ codes "': " ++ error_text e ++ codes ", requeuing"))

  -- processSingleItem: what it calls on the queue, and its error
  unfoldable pub process_single_item : Item → W → Queue × Option Error × W
  unfolding sync_handler
  process_single_item (other n) w = (forget (other n) ∷ finished (other n) ∷ [], none, w)
  process_single_item (text key) w =
      let (e, w') = sync_handler key w in
      (item_calls key e ++ finished (text key) ∷ [], requeuing key e, w')
