-- ===== src/Router/OnChange/Replay.antt =====
-- pkg/router/handler.go: a replayed event is handled like the event that was turned away.
use nah.Prelude.{
  Text, has_prefix, trim_prefix, strip, strip-append, text_eq, text_discrete, if◌then◌else◌, ◌++◌,
  Option, none, Bool, true, false, not, ℕ, ◌≡◌, refl,
}
use nah.Kube.{GroupVersionKind, Object}
use nah.Router.Triggers.{Pending}
use nah.Router.Handle.{Setup}
use nah.Router.Limits.{Limits, check_delay, trigger_prefix, replay_prefix}
use nah.Router.OnChange.{source_of, on_change}

has_prefix-append : (p s : Text) → has_prefix (p ++ s) p ≡ true
unfolding has_prefix
has_prefix-append p s = rw (strip-append p s) refl

trim_prefix-append : (p s : Text) → trim_prefix (p ++ s) p ≡ s
unfolding trim_prefix
trim_prefix-append p s = rw (strip-append p s) refl

-- A key with neither of the two prefixes, like that of every Kubernetes object.
pub record IsBare (key : Text) : Type 0 where
  pub no_trigger : has_prefix key trigger_prefix ≡ false
  pub no_replay : has_prefix key replay_prefix ≡ false

source_of_bare :
    (key : Text)
    → IsBare key
    → source_of key ≡ record { key = key; from_trigger = false; from_replay = false }
unfolding source_of
source_of_bare key bare = rw (bare.no_trigger, bare.no_replay) refl

source_of_replay :
    (key : Text)
    → (source_of (replay_prefix ++ key)
        ≡ record { key = key; from_trigger = false; from_replay = true })
      × (source_of (trigger_prefix ++ (replay_prefix ++ key))
          ≡ record { key = key; from_trigger = false; from_replay = true })
unfolding source_of has_prefix trim_prefix strip text_discrete
source_of_replay key = (refl, refl)

source_of_trigger :
    (key : Text)
    → IsBare key
    → source_of (trigger_prefix ++ key)
      ≡ record { key = key; from_trigger = true; from_replay = false }
unfolding source_of
source_of_trigger key bare =
    rw (has_prefix-append trigger_prefix key, trim_prefix-append trigger_prefix key, bare.no_replay)
      refl

if_not : {A : Type 0} (b : Bool) (x y : A) → (if not b then x else y) ≡ (if b then y else x)
if_not true x y = refl
if_not false x y = refl

module _ {W L : Type 0} (setup : Setup W L) where
  -- onChange on a bare key is what it does on the key behind the replay prefix, with the prefix of
  -- a trigger before that or not, as soon as checkDelay admits the key; if it does not, the event
  -- changes nothing but the limits, and returns its object.
  pub on_change-replay :
      (now later : ℕ) (gvk : GroupVersionKind) (key : Text) (obj : Option Object)
      (limits : Limits L) (pending : Pending) (w : W)
      → IsBare key
      → let (admitted, limits') = check_delay setup.rate now gvk key limits in
        let replayed = on_change setup later gvk (replay_prefix ++ key) obj limits' pending w in
        (on_change setup now gvk key obj limits pending w ≡ (
          if admitted
          then replayed
          else (record { object = obj; failure = none; world = w; pending = pending }, limits')))
        × (on_change setup later gvk
              (trigger_prefix ++ (replay_prefix ++ key))
              obj
              limits'
              pending
              w
            ≡ replayed)
  unfolding on_change
  on_change-replay now later gvk key obj limits pending w bare =
      let (plain, behind_trigger) = source_of_replay key in
      let admitted = (check_delay setup.rate now gvk key limits).0 in
      (rw (source_of_bare key bare, plain) (if_not admitted _ _), rw (plain, behind_trigger) refl)
