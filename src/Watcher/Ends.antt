-- ===== src/Watcher/Ends.antt =====
-- pkg/watcher/watcher.go: a watch under a context that ends comes to an end.
use nah.Prelude.{
  Text, text_eq, List, [], ◌∷◌, Option, none, some, Bool, true, false, ℕ, zero, suc, ◌≤◌, ◌<◌, ◌≡◌,
  refl, arith, is_some, if_inv,
}
use nah.Error.{Error, Result, ok, err, gone, conflict, has_reason}
use nah.Kube.{Object}
use nah.Watcher.{
  Event, bookmark, added, modified, deleted, failed, cancelled, WatchEnd, shown_deleted, called,
  watch_events, watched, do_watch, Verdict, return, again, verdict, after_wait, after_watch,
  retry_watch, newest, bookmarked,
}

-- `left` bounds the waits that the context still allows: no call of the watch gives any back.
module _ {W : Type 0} (now : ℕ) (callback : Object → W → (Bool × Option Error) × W)
    (watch : Text → W → Result (List Event) × W) (wait : W → Option Error × W) (left : W → ℕ)
    (callback_left : (obj : Object) (w : W) → left (callback obj w).1 ≤ left w)
    (watch_left : (revision : Text) (w : W) → left (watch revision w).1 ≤ left w)
    (wait_left : (w w' : W) → wait w ≡ (none, w') → left w' < left w) where
  called-left :
      (n : ℕ) (last : Text) (obj : Object) (rest : Text → W → WatchEnd × W)
      (r : (Bool × Option Error) × W)
      → ((last' : Text) (w : W) → left w ≤ n → left (rest last' w).1 ≤ n)
      → left r.1 ≤ n
      → left (called now callback last obj rest r).1 ≤ n
  called-left n last obj rest ((done, some e), w) keeps l =
      if_inv (λ (r : WatchEnd × W). left r.1 ≤ n) (has_reason conflict e) _ _ l l
  called-left n last obj rest ((true, none), w) keeps l = l
  called-left n last obj rest ((false, none), w) keeps l =
      keeps (newest last obj.resource_version) w l

  watch_events-left :
      (n : ℕ) (events : List Event) (last : Text) (w : W)
      → left w ≤ n
      → left (watch_events now callback events last w).1 ≤ n
  unfolding watch_events
  watch_events-left n [] last w l = l
  watch_events-left n (bookmark version ∷ events) last w l =
      watch_events-left n events (bookmarked last version) w l
  watch_events-left n (added obj ∷ events) last w l =
      called-left n last obj (watch_events now callback events) (callback obj w)
        (watch_events-left n events) (omega (arith, callback_left obj w))
  watch_events-left n (modified obj ∷ events) last w l =
      called-left n last obj (watch_events now callback events) (callback obj w)
        (watch_events-left n events) (omega (arith, callback_left obj w))
  watch_events-left n (deleted obj ∷ events) last w l =
      let shown = shown_deleted now obj in
      called-left n last shown (watch_events now callback events) (callback shown w)
        (watch_events-left n events) (omega (arith, callback_left shown w))
  watch_events-left n (failed e ∷ events) last w l = l
  watch_events-left n (cancelled e ∷ events) last w l = l

  watched-left :
      (n : ℕ) (revision : Text) (r : Result (List Event) × W)
      → left r.1 ≤ n
      → left (watched now callback watch revision r).1 ≤ n
  watched-left n revision (ok events, w) l = watch_events-left n events revision w l
  watched-left n revision (err e, w) l =
      if_inv (λ (r : WatchEnd × W). left r.1 ≤ n) (has_reason gone e) _ _ l l

  after_wait-ends :
      (fuel : ℕ) (w : W) (r : Option Error × W)
      → wait w ≡ r
      → left w < suc fuel
      → ((revision : Text) (w' : W)
          → left w' < fuel
          → is_some (retry_watch now callback watch wait fuel revision w') ≡ true)
      → (revision : Text)
      → is_some
          (after_wait now callback watch wait (retry_watch now callback watch wait fuel revision) r)
        ≡ true
  after_wait-ends fuel w (some e, w') p l rec revision = refl
  after_wait-ends fuel w (none, w') p l rec revision =
      rec revision w' (omega (arith, wait_left w w' p))

  after_watch-ends :
      (fuel : ℕ) (v : Verdict) (w : W)
      → left w < suc fuel
      → ((revision : Text) (w' : W)
          → left w' < fuel
          → is_some (retry_watch now callback watch wait fuel revision w') ≡ true)
      → is_some
          (after_watch now callback watch wait (retry_watch now callback watch wait fuel) (v, w))
        ≡ true
  after_watch-ends fuel (return e) w l rec = refl
  after_watch-ends fuel (again revision) w l rec =
      after_wait-ends fuel w (wait w) refl l rec revision

  retry_watch-ends :
      (fuel : ℕ) (revision : Text) (w : W)
      → left w < fuel
      → is_some (retry_watch now callback watch wait fuel revision w) ≡ true
  unfolding retry_watch do_watch
  retry_watch-ends zero revision w l = absurd (omega (arith, l))
  retry_watch-ends (suc fuel) revision w l =
      let (end, w') = do_watch now callback watch revision w in
      let kept : left w' ≤ left w =
        watched-left (left w) revision (watch revision w) (watch_left revision w) in
      after_watch-ends fuel (verdict revision end) w' (omega (arith, kept, l))
        (retry_watch-ends fuel)

  -- Under a context that allows only so many more waits, which every wait uses up and neither the
  -- callback nor a watch gives back, retryWatch returns after at most one watch more than waits,
  -- whatever the watches bring: errors that are not terminal do not keep it going for ever.
  pub retry_watch_ends :
      (revision : Text) (w : W)
      → is_some (retry_watch now callback watch wait (suc (left w)) revision w) ≡ true
  retry_watch_ends revision w = retry_watch-ends (suc (left w)) revision w (omega arith)
