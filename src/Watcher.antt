-- ===== src/Watcher.antt =====
-- pkg/watcher/watcher.go: a watch on objects that calls back until the callback is done, and that
-- starts again from the last revision that it saw.
pub mod Ends
use nah.Prelude.{
  Text, codes, text_eq, ◌==◌, if◌then◌else◌, List, [], ◌∷◌, ◌++◌, Option, none, some, Bool, true,
  false, ℕ, zero, suc, not, Map,
}
use nah.Error.{Error, wrapped, Result, ok, err, gone, conflict, has_reason}
use nah.Kube.{GroupVersionKind, Object}
use nah.Router.Matcher.{LabelSelector, FieldSelector}

-- What a select of the loop finds: an event of the watch, or that the context is done. A bookmark
-- carries the resource version of its object, if that has one to read.
pub data Event : Type 0 where
  bookmark : Option Text → Event
  added modified deleted : Object → Event
  failed : Error → Event
  cancelled : Error → Event

-- What doWatch returns.
pub record WatchEnd : Type 0 where
  pub cont : Bool
  pub last_revision : Text
  pub non_terminal : Option Error
  pub terminal : Option Error

abbrev pub newest : Text → Text → Text
newest last version = if version == [] then last else version

abbrev pub bookmarked : Text → Option Text → Text
bookmarked last none = last
bookmarked last (some version) = newest last version

-- The object of a Deleted event at a time: it is shown as being deleted, without finalizers.
abbrev pub deleted_at : ℕ → Option ℕ → Option ℕ
deleted_at now none = some now
deleted_at now (some t) = some t

unfoldable pub shown_deleted : ℕ → Object → Object
shown_deleted now obj = record obj {
  deletion_timestamp = deleted_at now obj.deletion_timestamp;
  finalizers = [];
}

abbrev pub ended : Bool → Text → Option Error → Option Error → WatchEnd
ended cont last non_terminal terminal = record {
  cont = cont;
  last_revision = last;
  non_terminal = non_terminal;
  terminal = terminal;
}

-- What retryWatch does with the end of one watch: it returns, or it goes on.
pub data Verdict : Type 0 where
  return : Option Error → Verdict
  again : Text → Verdict

abbrev pub verdict_of : Text → Option Error → Option Error → Bool → Text → Verdict
verdict_of revision (some e) terminal cont last = again (newest revision last)
verdict_of revision none (some e) cont last = return (some e)
verdict_of revision none none true last = return none
verdict_of revision none none false last = again (newest revision last)

unfoldable pub verdict : Text → WatchEnd → Verdict
verdict revision end = verdict_of revision end.non_terminal end.terminal end.cont end.last_revision

-- A watch gives a list of events, after which its channel is closed, or an error.
module _ {W : Type 0} (now : ℕ) (callback : Object → W → (Bool × Option Error) × W) where
  abbrev pub called :
      Text → Object → (Text → W → WatchEnd × W) → (Bool × Option Error) × W → WatchEnd × W
  called last obj rest ((done, some e), w) =
      if has_reason conflict e
      then (ended false last (some e) none, w)
      else (ended false last none (some e), w)
  called last obj rest ((done, none), w) =
      if done then (ended true last none none, w) else rest (newest last obj.resource_version) w

  -- The loop of doWatch
  unfoldable pub watch_events : List Event → Text → W → WatchEnd × W
  unfolding shown_deleted
  watch_events [] last w = (ended false last none none, w)
  watch_events (bookmark version ∷ events) last w = watch_events events (bookmarked last version) w
  watch_events (added obj ∷ events) last w = called last obj (watch_events events) (callback obj w)
  watch_events (modified obj ∷ events) last w =
      called last obj (watch_events events) (callback obj w)
  watch_events (deleted obj ∷ events) last w =
      let shown = shown_deleted now obj in
      called last shown (watch_events events) (callback shown w)
  watch_events (failed e ∷ events) last w = (ended false last none (some e), w)
  watch_events (cancelled e ∷ events) last w =
      (ended false last none (some (wrapped (codes "terminating watch: ") e)), w)

  module _ (watch : Text → W → Result (List Event) × W) where
    abbrev pub watched : Text → Result (List Event) × W → WatchEnd × W
    watched revision (ok events, w) = watch_events events revision w
    watched revision (err e, w) =
        if has_reason gone e
        then (ended false revision none (some e), w)
        else (ended false revision (some e) none, w)

    -- doWatch
    unfoldable pub do_watch : Text → W → WatchEnd × W
    unfolding watch_events
    do_watch revision w = watched revision (watch revision w)

    -- wait is the select at the end of the loop: the context's error if that is done before the
    -- two seconds are over.
    module _ (wait : W → Option Error × W) where
      abbrev pub after_wait :
          (W → Option (Option Error × W)) → Option Error × W → Option (Option Error × W)
      after_wait rest (some e, w) = some (some e, w)
      after_wait rest (none, w) = rest w

      abbrev pub after_watch :
          (Text → W → Option (Option Error × W)) → Verdict × W → Option (Option Error × W)
      after_watch rest (return e, w) = some (e, w)
      after_watch rest (again revision, w) = after_wait (rest revision) (wait w)

      -- retryWatch: its error. On fuel, which is the number of watches.
      unfoldable pub retry_watch : ℕ → Text → W → Option (Option Error × W)
      unfolding do_watch verdict
      retry_watch zero revision w = none
      retry_watch (suc fuel) revision w =
          let (end, w') = do_watch revision w in
          after_watch (retry_watch fuel) (verdict revision end, w')

  -- The callback on the items of the first list: it goes on behind an item that is done, and an
  -- error ends it.
  abbrev pub done_with : Option Object → Object → Bool → Option Object
  done_with before obj true = some obj
  done_with before obj false = before

  abbrev pub item_called :
      Option Object
      → Object
      → (Option Object → W → (Option Object × Option Error) × W)
      → (Bool × Option Error) × W
      → (Option Object × Option Error) × W
  item_called before obj rest ((done, some e), w) = ((done_with before obj done, some e), w)
  item_called before obj rest ((done, none), w) = rest (done_with before obj done) w

  unfoldable pub call_items : List Object → Option Object → W → (Option Object × Option Error) × W
  call_items [] found w = ((found, none), w)
  call_items (obj ∷ objs) found w = item_called found obj (call_items objs) (callback obj w)

  module _ (watch : Text → W → Result (List Event) × W) (wait : W → Option Error × W) where
    abbrev pub then_watch :
        ℕ → Text → (Option Object × Option Error) × W → Option (Option Error × W)
    then_watch fuel revision ((some obj, e), w) = some (e, w)
    then_watch fuel revision ((none, some e), w) = some (some e, w)
    then_watch fuel revision ((none, none), w) = retry_watch watch wait fuel revision w

    abbrev pub listed : ℕ → Result (Text × List Object) × W → Option (Option Error × W)
    listed fuel (err e, w) = some (some e, w)
    listed fuel (ok (revision, objs), w) = then_watch fuel revision (call_items objs none w)

    -- bySelector behind newListObj: its error. `list` makes the list object and fills it; its
    -- revision comes first.
    unfoldable pub by_selector :
        ℕ → (W → Result (Text × List Object) × W) → W → Option (Option Error × W)
    unfolding call_items retry_watch
    by_selector fuel list w = listed fuel (list w)
