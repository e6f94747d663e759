-- ===== src/Runtime/Controller/Requests.antt =====
-- pkg/runtime/controller.go: every key gets to its queue in order, before and after the start.
use nah.Prelude.{
  Text, text_eq, nat_eq, length, List, [], ◌∷◌, ◌++◌, Option, none, some, ℕ, zero, suc, ◌≡◌, refl,
  ap, sym, ==_self, ◌∙◌,
}
use mathlib.Core.List.{append_assoc, append-nil}
use nah.Error.{Result, ok, err}
use nah.Kube.{Object}
use nah.Runtime.Keys.{key_func}
use nah.Runtime.Controller.{
  QueueCall, add, add_after, Queue, StartKey, Controller, Splitter, empty_queues, enqueue_key_after,
  enqueue_after, enqueue, enqueue_named, start_or_push, start_call, run,
}
use nah.Runtime.Controller.Order.{
  effective, calls_at, push_at-some, calls_at-push_at, sent, sent-append, Covers, push_starts-lem,
}

-- The ways to ask for a key: by the key, by namespace and name, and by an object that changed.
pub data Request : Type 0 where
  by_key : Text → ℕ → Request
  by_name : Text → Text → ℕ → Request
  by_object : Object → Request

module _ (splitter : Splitter) (namespace_key : Object → Result Text) where
  unfoldable pub perform : Request → Controller → Option Controller
  unfolding enqueue_key_after enqueue_after enqueue
  perform (by_key key after) c = enqueue_key_after splitter key after c
  perform (by_name namespace name after) c = enqueue_after splitter namespace name after c
  perform (by_object obj) c = enqueue splitter namespace_key obj c

  abbrev pub then_perform : (Controller → Option Controller) → Option Controller → Option Controller
  then_perform rest none = none
  then_perform rest (some c) = rest c

  unfoldable pub perform_all : List Request → Controller → Option Controller
  unfolding perform
  perform_all [] c = some c
  perform_all (r ∷ rs) c = then_perform (perform_all rs) (perform r c)

  -- An object without a key is left out.
  abbrev pub object_start : Result Text → List StartKey
  object_start (err e) = []
  object_start (ok key) = record { key = key; after = 0 } ∷ []

  -- What a request asks for.
  abbrev pub start_of : Request → List StartKey
  start_of (by_key key after) = record { key = key; after = after } ∷ []
  start_of (by_name namespace name after) =
      record { key = key_func namespace name; after = after } ∷ []
  start_of (by_object obj) = object_start (namespace_key obj)

  abbrev pub starts_of : List Request → List StartKey
  starts_of [] = []
  starts_of (r ∷ rs) = start_of r ++ starts_of rs

  abbrev pub waiting : List StartKey → Controller
  waiting ss = record { workqueues = none; start_keys = ss }

  enqueue_named-waiting :
      (k : Result Text) (ss : List StartKey)
      → enqueue_named splitter k (waiting ss) ≡ some (waiting (ss ++ object_start k))
  enqueue_named-waiting (err e) ss = ap (λ l. some (waiting l)) (sym (append-nil ss))
  enqueue_named-waiting (ok key) ss = refl

  perform-waiting :
      (r : Request) (ss : List StartKey)
      → perform r (waiting ss) ≡ some (waiting (ss ++ start_of r))
  unfolding perform enqueue
  perform-waiting (by_key key after) ss = refl
  perform-waiting (by_name namespace name after) ss = refl
  perform-waiting (by_object obj) ss = enqueue_named-waiting (namespace_key obj) ss

  perform_all-waiting :
      (rs : List Request) (ss : List StartKey)
      → perform_all rs (waiting ss) ≡ some (waiting (ss ++ starts_of rs))
  unfolding perform_all
  perform_all-waiting [] ss = ap (λ l. some (waiting l)) (sym (append-nil ss))
  perform_all-waiting (r ∷ rs) ss =
      rw (perform-waiting r ss) (perform_all-waiting rs (ss ++ start_of r))
      ∙ ap (λ l. some (waiting l)) (append_assoc ss (start_of r) (starts_of rs))

  abbrev pub running : List Queue → List StartKey → Controller
  running qs ss = record { workqueues = some qs; start_keys = ss }

  -- The queues after some keys were sent, where nothing else changed.
  abbrev Sent : List Queue → List StartKey → List StartKey → Option Controller → Type 0
  Sent qs ss new c =
      (qs' : List Queue) × (c ≡ some (running qs' ss))
      × (length qs' ≡ length qs)
      × ((j : ℕ) → calls_at j qs' ≡ calls_at j qs ++ sent splitter j new)

  -- One call that has the effect of a start key.
  push-Sent :
      (qs : List Queue) (ss : List StartKey) (s : StartKey) (call : QueueCall)
      → Covers splitter (length qs)
      → effective call ≡ start_call splitter s
      → Sent qs ss (s ∷ []) (start_or_push splitter (running qs ss) s call (some qs))
  unfolding sent
  push-Sent qs ss s call covers same =
      let (qs', p, l) = push_at-some (splitter.split s.key) call qs (covers s.key) in
      (
        qs',
        rw p refl,
        l,
        λ j.
            calls_at-push_at (splitter.split s.key) j call qs qs' p
            ∙ ap (λ c. calls_at j qs ++ c) (rw same (sym (append-nil _))),
      )

  named-Sent :
      (k : Result Text) (qs : List Queue) (ss : List StartKey)
      → Covers splitter (length qs)
      → Sent qs ss (object_start k) (enqueue_named splitter k (running qs ss))
  unfolding sent
  named-Sent (err e) qs ss covers = (qs, refl, refl, λ j. sym (append-nil (calls_at j qs)))
  named-Sent (ok key) qs ss covers =
      push-Sent qs ss (record { key = key; after = 0 }) (add key) covers (rw (==_self zero) refl)

  perform-running :
      (r : Request) (qs : List Queue) (ss : List StartKey)
      → Covers splitter (length qs)
      → Sent qs ss (start_of r) (perform r (running qs ss))
  unfolding perform enqueue enqueue_after enqueue_key_after
  perform-running (by_key key after) qs ss covers =
      push-Sent qs ss _ (add_after key after) covers refl
  perform-running (by_name namespace name after) qs ss covers =
      push-Sent qs ss _ (add_after (key_func namespace name) after) covers refl
  perform-running (by_object obj) qs ss covers = named-Sent (namespace_key obj) qs ss covers

  perform_all-running :
      (rs : List Request) (qs : List Queue) (ss : List StartKey)
      → Covers splitter (length qs)
      → Sent qs ss (starts_of rs) (perform_all rs (running qs ss))
  unfolding perform_all sent
  perform_all-running [] qs ss covers = (qs, refl, refl, λ j. sym (append-nil (calls_at j qs)))
  perform_all-running (r ∷ rs) qs ss covers =
      let (mid, p, l, calls) = perform-running r qs ss covers in
      let (qs', q, k, more) = perform_all-running rs mid ss (λ key. rw l (covers key)) in
      (
        qs',
        rw p q,
        k ∙ l,
        λ j.
            more j
            ∙ ap (λ c. c ++ sent splitter j (starts_of rs)) (calls j)
            ∙ append_assoc (calls_at j qs) (sent splitter j (start_of r))
                (sent splitter j (starts_of rs))
            ∙ ap (λ c. calls_at j qs ++ c)
                (sym (sent-append splitter j (start_of r) (starts_of rs))),
      )

  length-empty_queues : (n : ℕ) → length (empty_queues n) ≡ n
  unfolding empty_queues
  length-empty_queues zero = refl
  length-empty_queues (suc n) = ap suc (length-empty_queues n)

  calls_at-empty_queues : (j n : ℕ) → calls_at j (empty_queues n) ≡ []
  unfolding empty_queues
  calls_at-empty_queues j zero = refl
  calls_at-empty_queues zero (suc n) = refl
  calls_at-empty_queues (suc j) (suc n) = calls_at-empty_queues j n

  -- Whatever keys are asked for before the controller runs and after that, where every key has a
  -- queue there is no panic, no key waits any more, and on each queue the calls are, up to a delay
  -- of zero, those of the keys that are split to it, in the order in which they were asked for.
  pub requests_lem :
      (before after : List Request) (i : ℕ)
      → Covers splitter splitter.queues
      → (qs : List Queue) × (then_perform
            (perform_all after)
            (then_perform (run splitter) (perform_all before (waiting [])))
          ≡ some (running qs []))
        × (calls_at i qs ≡ sent splitter i (starts_of before ++ starts_of after))
  unfolding run
  requests_lem before after i covers =
      let n = splitter.queues in
      let full : Covers splitter (length (empty_queues n)) =
        λ key. rw (length-empty_queues n) (covers key) in
      let (mid, p, l, calls) = push_starts-lem splitter (starts_of before) (empty_queues n) full in
      let (qs, q, k, more) =
        perform_all-running after mid [] (λ key. rw (l, length-empty_queues n) (covers key)) in
      (
        qs,
        rw (perform_all-waiting before [], p) q,
        more i
            ∙ ap (λ c. c ++ sent splitter i (starts_of after))
                (calls i ∙ rw (calls_at-empty_queues i n) refl)
            ∙ sym (sent-append splitter i (starts_of before) (starts_of after)),
      )
