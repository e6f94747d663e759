-- ===== src/Router/Limits.antt =====
-- pkg/router/handler.go: the rate limit of each key, and the keys that wait for their turn.
pub mod Waiting
use nah.Prelude.{
  Text, codes, Map, lookup, insert, delete, text_discrete, HasEq, ◌==◌, if◌then◌else◌, ltb, List,
  [], ◌∷◌, ◌++◌, Option, none, some, Bool, true, false, is_some, ℕ, ◌+◌,
}
use nah.Kube.{GroupVersionKind, gvk_discrete}

abbrev pub trigger_prefix : Text
trigger_prefix = codes "_t "

abbrev pub replay_prefix : Text
replay_prefix = codes "_r "

pub record LimiterKey : Type 0 where
  pub key : Text
  pub gvk : GroupVersionKind

limiter_key_fields : Discrete LimiterKey
unfolding text_discrete gvk_discrete
limiter_key_fields = hlevel (text_discrete, gvk_discrete)

unfoldable pub limiter_key_discrete : Discrete LimiterKey
unfolding limiter_key_fields
limiter_key_discrete = limiter_key_fields

instance abbrev pub limiter_key_eq : HasEq LimiterKey
limiter_key_eq = record { same = limiter_key_discrete }

-- golang.org/x/time/rate: a new limiter, and a reservation with its delay at a time.
pub record Rate (L : Type 0) : Type 0 where
  pub new_limiter : L
  pub reserve : ℕ → L → ℕ × L

-- The limiters and the keys in `waiting`. Every goroutine of checkDelay that sleeps stands in
-- `sleeping`; the calls of backend.Trigger that woken ones made stand in `replayed`.
pub record Limits (L : Type 0) : Type 0 where
  pub limiters : Map LimiterKey L
  pub waiting : Map LimiterKey Bool
  pub sleeping : List LimiterKey
  pub replayed : List LimiterKey

unfoldable pub remove_first : LimiterKey → List LimiterKey → List LimiterKey
remove_first k [] = []
remove_first k (j ∷ ks) = let rest = remove_first k ks in if j == k then ks else j ∷ rest

module _ {L : Type 0} where
  abbrev pub no_limits : Limits L
  no_limits = record { limiters = []; waiting = []; sleeping = []; replayed = [] }

  -- The goroutine of a key wakes: the key no longer waits, and is triggered with the replay prefix.
  unfoldable pub wake : LimiterKey → Limits L → Limits L
  unfolding delete remove_first
  wake k s = record s {
    waiting = delete k s.waiting;
    sleeping = remove_first k s.sleeping;
    replayed = record k { key = replay_prefix ++ k.key } ∷ s.replayed;
  }

  -- forgetBackoff
  unfoldable pub forget_backoff : GroupVersionKind → Text → Limits L → Limits L
  unfolding delete
  forget_backoff gvk key s = record s {
    limiters = delete (record { key = key; gvk = gvk }) s.limiters;
  }

  abbrev pub reserved : LimiterKey → Limits L → ℕ × L → Bool × Limits L
  reserved k s (delay, l) =
      let s₁ = record s { limiters = insert k l s.limiters } in
      if ltb 0 delay
      then (false, record s₁ { waiting = insert k true s.waiting; sleeping = k ∷ s.sleeping })
      else (true, s₁)

  module _ (rate : Rate L) (now : ℕ) where
    abbrev pub or_new_limiter : Option L → L
    or_new_limiter none = rate.new_limiter
    or_new_limiter (some l) = l

    -- checkDelay: whether the key may be handled now
    unfoldable pub check_delay : GroupVersionKind → Text → Limits L → Bool × Limits L
    check_delay gvk key s =
        let k : LimiterKey = record { key = key; gvk = gvk } in
        if is_some (lookup k s.waiting)
        then (false, s)
        else reserved k s (rate.reserve now (or_new_limiter (lookup k s.limiters)))
