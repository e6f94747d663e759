-- ===== src/Router/Limits/Waiting.antt =====
-- pkg/router/handler.go: a key that was turned away has a goroutine that replays it.
use nah.Prelude.{
  Text, lookup, lookup-insert, lookup-delete, ◌==◌, if◌then◌else◌, ltb, List, [], ◌∷◌, ◌++◌, none,
  true, false, is_some, ℕ, ◌+◌, ◌-◌, ◌≡◌, refl, arith, contains, ◌∙◌, Bool-cases, inl, inr, ==_self,
}
use nah.Kube.{GroupVersionKind}
use nah.Router.Limits.{
  LimiterKey, limiter_key_eq, Rate, Limits, no_limits, remove_first, wake, forget_backoff,
  check_delay, or_new_limiter, reserved, replay_prefix,
}

-- How many goroutines sleep for a key.
abbrev pub sleepers : LimiterKey → List LimiterKey → ℕ
sleepers k [] = 0
sleepers k (j ∷ ks) = let rest = sleepers k ks in if j == k then 1 + rest else rest

module _ {L : Type 0} (rate : Rate L) where
  -- What may happen to the limits: an event at some time, an object that is gone, and a sleeping
  -- goroutine that wakes.
  pub data Step (s : Limits L) : Limits L → Type 0 where
    event :
        (now : ℕ) (gvk : GroupVersionKind) (key : Text) → Step s (check_delay rate now gvk key s).1
    gone : (gvk : GroupVersionKind) (key : Text) → Step s (forget_backoff gvk key s)
    woken : (k : LimiterKey) → contains s.sleeping k ≡ true → Step s (wake k s)

  pub data Reachable : Limits L → Type 0 where
    start : Reachable no_limits
    next : (s s' : Limits L) → Reachable s → Step s s' → Reachable s'

-- Exactly one goroutine sleeps for a key that waits, and none for another key.
abbrev pub IsAwaited : {L : Type 0} → Limits L → Type 0
IsAwaited s =
    (k : LimiterKey) → sleepers k s.sleeping ≡ (if is_some (lookup k s.waiting) then 1 else 0)

sleepers-remove_first :
    (k j : LimiterKey) (ks : List LimiterKey)
    → sleepers j (remove_first k ks) ≡ (if k == j then sleepers j ks - 1 else sleepers j ks)
unfolding remove_first
sleepers-remove_first k j [] = ground arith
sleepers-remove_first k j (i ∷ ks) = ground (arith, sleepers-remove_first k j ks)

contains-sleepers : (k : LimiterKey) (ks : List LimiterKey) → contains ks k ≡ ltb 0 (sleepers k ks)
contains-sleepers k [] = refl
contains-sleepers k (j ∷ ks) = ground (arith, contains-sleepers k ks)

module _ {L : Type 0} (rate : Rate L) where
  wake-IsAwaited : (k : LimiterKey) (s : Limits L) → IsAwaited s → IsAwaited (wake k s)
  unfolding wake
  wake-IsAwaited k s h j =
      ground (arith, sleepers-remove_first k j s.sleeping, lookup-delete k j s.waiting, h j)

  reserved-IsAwaited :
      (k : LimiterKey) (s : Limits L) (delay : ℕ) (l : L)
      → is_some (lookup k s.waiting) ≡ false
      → IsAwaited s
      → IsAwaited (reserved k s (delay, l)).1
  reserved-IsAwaited k s delay l fresh h j =
      ground (arith, lookup-insert k j true s.waiting, h j, h k)

  reserved_waits :
      (k : LimiterKey) (s : Limits L) (delay : ℕ) (l : L)
      → (reserved k s (delay, l)).0 ≡ false
      → is_some (lookup k (reserved k s (delay, l)).1.waiting) ≡ true
  reserved_waits k s delay l refused = ground (arith, lookup-insert k k true s.waiting, ==_self k)

  check_delay-IsAwaited :
      (now : ℕ) (gvk : GroupVersionKind) (key : Text) (s : Limits L)
      → IsAwaited s
      → IsAwaited (check_delay rate now gvk key s).1
  unfolding check_delay
  check_delay-IsAwaited now gvk key s h =
      let k : LimiterKey = record { key = key; gvk = gvk } in
      let r = rate.reserve now (or_new_limiter rate now (lookup k s.limiters)) in
      elim (Bool-cases (is_some (lookup k s.waiting))) [
        | inl w ↦ rw w h
        | inr f ↦ rw f (reserved-IsAwaited k s r.0 r.1 f h)
      ]

  reachable-IsAwaited : {s : Limits L} → Reachable rate s → IsAwaited s
  unfolding forget_backoff lookup
  reachable-IsAwaited start = λ k. refl
  reachable-IsAwaited (next s s' r (event now gvk key)) =
      check_delay-IsAwaited now gvk key s (reachable-IsAwaited r)
  reachable-IsAwaited (next s s' r (gone gvk key)) = reachable-IsAwaited r
  reachable-IsAwaited (next s s' r (woken k m)) = wake-IsAwaited k s (reachable-IsAwaited r)

  -- While the limits are used, exactly one goroutine sleeps for each key that waits, and none for
  -- any other key.
  pub reachable-sleepers :
      (k : LimiterKey) {s : Limits L}
      → Reachable rate s
      → sleepers k s.sleeping ≡ (if is_some (lookup k s.waiting) then 1 else 0)
  reachable-sleepers k r = reachable-IsAwaited r k

  refused_waits :
      (now : ℕ) (gvk : GroupVersionKind) (key : Text) (s : Limits L)
      → (check_delay rate now gvk key s).0 ≡ false
      → is_some
          (lookup (record { key = key; gvk = gvk }) (check_delay rate now gvk key s).1.waiting)
        ≡ true
  unfolding check_delay
  refused_waits now gvk key s refused =
      let k : LimiterKey = record { key = key; gvk = gvk } in
      let r = rate.reserve now (or_new_limiter rate now (lookup k s.limiters)) in
      elim (Bool-cases (is_some (lookup k s.waiting))) [
        | inl w ↦ rw w w
        | inr f ↦ rw f (reserved_waits k s r.0 r.1 (rw f at refused))
      ]

  -- An event that checkDelay turns away is not lost: a goroutine sleeps for its key, and when it
  -- wakes, the key no longer waits and is triggered behind the replay prefix.
  pub check_delay-replays :
      (now : ℕ) (gvk : GroupVersionKind) (key : Text) {s : Limits L}
      → Reachable rate s
      → (check_delay rate now gvk key s).0 ≡ false
      → let s' = (check_delay rate now gvk key s).1 in
        let k : LimiterKey = record { key = key; gvk = gvk } in
        Step rate s' (wake k s')
        × (lookup k (wake k s').waiting ≡ none)
        × (contains (wake k s').sleeping k ≡ false)
        × ((wake k s').replayed ≡ record k { key = replay_prefix ++ key } ∷ s'.replayed)
  unfolding wake
  check_delay-replays now gvk key {s} r refused =
      let k : LimiterKey = record { key = key; gvk = gvk } in
      let s' = (check_delay rate now gvk key s).1 in
      let w = refused_waits now gvk key s refused in
      let one : sleepers k s'.sleeping ≡ 1 =
        reachable-IsAwaited (next s s' r (event now gvk key)) k ∙ rw w refl in
      (
        woken k (contains-sleepers k s'.sleeping ∙ rw one refl),
        ground (arith, lookup-delete k k s'.waiting, ==_self k),
        ground (
          arith,
          contains-sleepers k (remove_first k s'.sleeping),
          sleepers-remove_first k k s'.sleeping,
          ==_self k,
          one,
        ),
        refl,
      )
