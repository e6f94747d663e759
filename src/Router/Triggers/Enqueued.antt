-- ===== src/Router/Triggers/Enqueued.antt =====
-- Which targets process enqueues.
use nah.Prelude.{
  is_some-lookup, Text, lookup, lookup-cons_fresh, lookup-cons_self, keys, IsMap, text_eq, ◌==◌, [],
  ◌∷◌, some, Bool, true, false, ◌&&◌, ◌||◌, is_some, contains, contains-append, ◌≡◌, refl, arith,
  ◌∙◌, Bool-cases, inl, inr, sym, ◌↔◌, eq_of_==, and_left, and_right, All,
}
use nah.Kube.{GroupVersionKind, gvk_eq, Object}
use nah.Router.Matcher.{ObjectMatcher, matches}
use nah.Router.Matcher.Meaning.{matches_named}
use nah.Router.Triggers.{
  TriggerKey, trigger_key_eq, EnqueueTarget, target_eq, ByKey, ByTarget, Matchers, Pending, or_new,
  registered, by_selector, check, check_keys, check_targets, process,
}

found_behind :
    {mt : ObjectMatcher} (u t : EnqueueTarget) (k : Text) (m : ByKey) (ts : ByTarget)
    → contains (keys ts) u ≡ false
    → lookup k (or_new (lookup t ts)) ≡ some mt
    → lookup k (or_new (lookup t ((u, m) ∷ ts))) ≡ some mt
unfolding lookup
found_behind u t k m ts fresh h = ground (arith, is_some-lookup u ts)

registered_behind :
    {mt : ObjectMatcher} (i g : GroupVersionKind) (t : EnqueueTarget) (k : Text) (ts : ByTarget)
    (ms : Matchers)
    → contains (keys ms) i ≡ false
    → registered ms g t k ≡ some mt
    → registered ((i, ts) ∷ ms) g t k ≡ some mt
unfolding lookup
registered_behind i g t k ts ms fresh h = ground (arith, is_some-lookup i ms)

-- Go's maps have each key once, at every level.
abbrev pub IsNested : Matchers → Type 0
IsNested ms =
    IsMap ms
    × All
        (λ (e : GroupVersionKind × ByTarget).
          IsMap e.1 × All (λ (f : EnqueueTarget × ByKey). IsMap f.1) e.1)
        ms

-- Some pending object of the kind matches.
pub affects : (Object → Bool) → GroupVersionKind → ObjectMatcher → Pending → Bool
affects is_fields g mt [] = false
affects is_fields g mt ((key, obj) ∷ changes) =
    (key.gvk == g && matches is_fields mt key.namespace key.name obj)
    || affects is_fields g mt changes

module _ (is_fields : Object → Bool) (pending : Pending) where
  contains-by_selector :
      (g : GroupVersionKind) (t u : EnqueueTarget) (mt : ObjectMatcher) (changes : Pending)
      → contains (by_selector is_fields g t mt changes) u
        ≡ (t == u && affects is_fields g mt changes)
  unfolding by_selector affects
  contains-by_selector g t u mt [] = ground arith
  contains-by_selector g t u mt ((key, obj) ∷ changes) =
      ground (arith, contains-by_selector g t u mt changes)

  abbrev pub direct : GroupVersionKind → ObjectMatcher → TriggerKey
  direct g mt = record { name = mt.name; namespace = mt.namespace; gvk = g }

  same_key :
      (g : GroupVersionKind) (mt : ObjectMatcher) (key : TriggerKey)
      → (key == direct g mt)
        ≡ (key.gvk == g && (mt.name == key.name && mt.namespace == key.namespace))
  same_key g mt key = ground arith

  -- The lookup by name is a search for a match.
  pub lookup-affects :
      (g : GroupVersionKind) (mt : ObjectMatcher) (changes : Pending)
      → (mt.name == []) ≡ false
      → is_some (lookup (direct g mt) changes) ≡ affects is_fields g mt changes
  unfolding lookup affects
  lookup-affects g mt [] h = refl
  lookup-affects g mt ((key, obj) ∷ changes) h = ground (
    arith,
    lookup-affects g mt changes h,
    same_key g mt key,
    matches_named is_fields mt key.namespace key.name obj h,
  )

  contains-check :
      (g : GroupVersionKind) (t u : EnqueueTarget) (mt : ObjectMatcher)
      → contains (check is_fields pending g t mt) u ≡ (t == u && affects is_fields g mt pending)
  unfolding check
  contains-check g t u mt = elim (Bool-cases (mt.name == [])) [
    | inl unnamed ↦ rw unnamed (contains-by_selector g t u mt pending)
    | inr named ↦ rw (named, lookup-affects g mt pending named) (ground arith)
  ]

  check_keys_complete :
      (g : GroupVersionKind) (t : EnqueueTarget) (k : Text) (mt : ObjectMatcher) (m : ByKey)
      → lookup k m ≡ some mt
      → affects is_fields g mt pending ≡ true
      → contains (check_keys is_fields pending g t m) t ≡ true
  unfolding check_keys lookup
  check_keys_complete g t k mt [] h a = cc
  check_keys_complete g t k mt ((j, mu) ∷ m) h a = ground (
    arith,
    check_keys_complete g t k mt m,
    contains-check g t t mu,
    contains-append (check is_fields pending g t mu) (check_keys is_fields pending g t m) t,
  )

  check_targets_complete :
      (g : GroupVersionKind) (t : EnqueueTarget) (k : Text) (mt : ObjectMatcher) (ts : ByTarget)
      → lookup k (or_new (lookup t ts)) ≡ some mt
      → affects is_fields g mt pending ≡ true
      → contains (check_targets is_fields pending g ts) t ≡ true
  unfolding check_targets lookup
  check_targets_complete g t k mt [] h a = cc
  check_targets_complete g t k mt ((u, m) ∷ ts) h a = ground (
    arith,
    check_targets_complete g t k mt ts,
    check_keys_complete g t k mt m,
    contains-append (check_keys is_fields pending g u m) (check_targets is_fields pending g ts) t,
  )

  pub process_complete :
      (g : GroupVersionKind) (t : EnqueueTarget) (k : Text) (mt : ObjectMatcher) (ms : Matchers)
      → registered ms g t k ≡ some mt
      → affects is_fields g mt pending ≡ true
      → contains (process is_fields pending ms).0 t ≡ true
  unfolding process lookup
  process_complete g t k mt [] h a = cc
  process_complete g t k mt ((i, ts) ∷ ms) h a = ground (
    arith,
    process_complete g t k mt ms,
    check_targets_complete g t k mt ts,
    contains-append (check_targets is_fields pending i ts) (process is_fields pending ms).0 t,
  )

  -- A matcher that is found in a map and affected.
  abbrev Reason : GroupVersionKind → ByKey → Type 0
  Reason g m =
      (k : Text) × (mt : ObjectMatcher) × (lookup k m ≡ some mt)
      × (affects is_fields g mt pending ≡ true)

  check_keys_sound :
      (g : GroupVersionKind) (u t : EnqueueTarget) (m : ByKey)
      → IsMap m
      → contains (check_keys is_fields pending g u m) t ≡ true
      → (u ≡ t) × Reason g m
  unfolding check_keys
  check_keys_sound g u t [] w h = cc
  check_keys_sound g u t ((k, mt) ∷ m) w h =
      elim (Bool-cases (contains (check is_fields pending g u mt) t)) [
        | inl here ↦
            let both = sym (contains-check g u t mt) ∙ here in
            (eq_of_== u t (and_left _ _ both), (k, mt, lookup-cons_self k mt m, and_right _ _ both))
        | inr there ↦
            let (e, reason) = check_keys_sound g u t m w.1 (
              ground (
                arith,
                contains-append (check is_fields pending g u mt)
                    (check_keys is_fields pending g u m) t,
              )) in
            let (j, mu, found, hit) = reason in
            (e, (j, mu, lookup-cons_fresh j k mu mt m w.0 found, hit))
      ]

  check_targets_sound :
      (g : GroupVersionKind) (t : EnqueueTarget) (ts : ByTarget)
      → IsMap ts
      → All (λ (e : EnqueueTarget × ByKey). IsMap e.1) ts
      → contains (check_targets is_fields pending g ts) t ≡ true
      → Reason g (or_new (lookup t ts))
  unfolding check_targets
  check_targets_sound g t [] w ws h = cc
  check_targets_sound g t ((u, m) ∷ ts) w ws h =
      elim (Bool-cases (contains (check_keys is_fields pending g u m) t)) [
        | inl here ↦
            let (e, reason) = check_keys_sound g u t m ws.0 here in
            rw (← e, lookup-cons_self u m ts) reason
        | inr there ↦
            let (k, mt, found, hit) = check_targets_sound g t ts w.1 ws.1 (
              ground (
                arith,
                contains-append (check_keys is_fields pending g u m)
                    (check_targets is_fields pending g ts) t,
              )) in
            (k, mt, found_behind u t k m ts w.0 found, hit)
      ]

  process_sound :
      (t : EnqueueTarget) (ms : Matchers)
      → IsNested ms
      → contains (process is_fields pending ms).0 t ≡ true
      → (g : GroupVersionKind) × (k : Text) × (mt : ObjectMatcher) × (registered ms g t k ≡ some mt)
        × (affects is_fields g mt pending ≡ true)
  unfolding process
  process_sound t [] w h = cc
  process_sound t ((i, ts) ∷ ms) w h =
      elim (Bool-cases (contains (check_targets is_fields pending i ts) t)) [
        | inl here ↦
            let (k, mt, found, hit) = check_targets_sound i t ts w.1.0.0 w.1.0.1 here in
            (i, k, mt, rw (lookup-cons_self i ts ms) found, hit)
        | inr there ↦
            let (g, k, mt, found, hit) =
              process_sound t ms (w.0.1, w.1.1)
                (ground (
                  arith,
                  contains-append (check_targets is_fields pending i ts)
                      (process is_fields pending ms).0 t,
                )) in
            (g, k, mt, registered_behind i g t k ts ms w.0.0 found, hit)
      ]

-- process enqueues a target exactly if some matcher that is registered for it, on the kind of a
-- pending object, matches that object: the direct lookup by name misses no match and adds none.
pub process_iff :
    (is_fields : Object → Bool) (pending : Pending) (ms : Matchers) (t : EnqueueTarget)
    → IsNested ms
    → (contains (process is_fields pending ms).0 t ≡ true) ↔ (
        (g : GroupVersionKind) × (k : Text) × (mt : ObjectMatcher) × (registered ms g t k ≡ some mt)
        × (affects is_fields g mt pending ≡ true))
process_iff f pending ms t w = (
  process_sound f pending t ms w,
  λ (g, k, mt, found, hit). process_complete f pending g t k mt ms found hit,
)
