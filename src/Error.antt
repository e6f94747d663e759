-- ===== src/Error.antt =====
-- Go's error values as the program builds and inspects them, results, and pkg/merr.
pub mod Merr
mod Examples
use nah.Prelude.{
  Text, Bool, true, false, ◌||◌, ◌≡◌, refl, ◌≡◌, HasEq, Option, none, some, ◌==◌, text_discrete, ℕ,
  List,
}

-- The reasons of API errors that the program asks for (IsNotFound, IsAlreadyExists, …).
pub data Reason : Type 0 where
  not_found already_exists conflict gone internal : Reason

reason_cases : Discrete Reason
reason_cases = hlevel

unfoldable pub reason_discrete : Discrete Reason
unfolding reason_cases
reason_discrete = reason_cases

instance abbrev pub reason_eq : HasEq Reason
reason_eq = record { same = reason_discrete }

-- `message` is errors.New and fmt.Errorf without %w, `wrapped` has an Unwrap, `joined` is
-- merr.Errors; the sentinels are compared by identity.
mutual
  pub data Error : Type 0 where
    message : Text → Error
    api : Reason → Error
    err_replace : Error
    err_owner_not_found : Error
    err_ignore : Error
    wrapped : Text → Error → Error
    joined : Errors → Error

  pub data Errors : Type 0 where
    nil : Errors
    cons : Error → Errors → Errors

abbrev pub or_next : Option Reason → Option Reason → Option Reason
or_next none next = next
or_next (some r) next = some r

-- The reason of the first API status that errors.As finds: the tree of Unwrap is searched from the
-- left, an error before what it wraps.
unfoldable mutual
  pub first_reason : Error → Option Reason
  first_reason (message t) = none
  first_reason (api s) = some s
  first_reason err_replace = none
  first_reason err_owner_not_found = none
  first_reason err_ignore = none
  first_reason (wrapped t e) = first_reason e
  first_reason (joined es) = first_reason_among es

  pub first_reason_among : Errors → Option Reason
  first_reason_among nil = none
  first_reason_among (cons e es) = or_next (first_reason e) (first_reason_among es)

abbrev pub is_reason : Reason → Option Reason → Bool
is_reason r none = false
is_reason r (some s) = s == r

-- IsNotFound, IsAlreadyExists and the like: only the first API status is asked for its reason.
unfoldable pub has_reason : Reason → Error → Bool
unfolding first_reason
has_reason r e = is_reason r (first_reason e)

-- errors.Is(err, ErrIgnore)
unfoldable mutual
  pub is_ignore : Error → Bool
  is_ignore (message t) = false
  is_ignore (api s) = false
  is_ignore err_replace = false
  is_ignore err_owner_not_found = false
  is_ignore err_ignore = true
  is_ignore (wrapped t e) = is_ignore e
  is_ignore (joined es) = any_ignore es

  pub any_ignore : Errors → Bool
  any_ignore nil = false
  any_ignore (cons e es) = is_ignore e || any_ignore es

-- A value with a nil error, or an error.
pub data Result {ℓ} (A : Type ℓ) : Type ℓ where
  err : Error → Result A
  ok : A → Result A

-- v, err := m; if err != nil { return err }
infixl 5 ◌>>=◌
abbrev pub ◌>>=◌ {ℓ κ} : {A : Type ℓ} {B : Type κ} → Result A → (A → Result B) → Result B
err failure >>= next = err failure
ok value >>= next = next value

-- A chain that succeeds has a first step that succeeds.
pub bind-eq_ok {ℓ κ} :
    {A : Type ℓ} {B : Type κ} (first : Result A) (next : A → Result B) {last : B}
    → (first >>= next) ≡ ok last
    → (value : A) × (first ≡ ok value) × (next value ≡ ok last)
bind-eq_ok (err failure) next h = cc
bind-eq_ok (ok value) next h = (value, refl, h)

pub ok-injective {ℓ} : {A : Type ℓ} {a b : A} → ok a ≡ ok b → a ≡ b
ok-injective h = cc
