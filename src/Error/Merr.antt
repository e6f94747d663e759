-- ===== src/Error/Merr.antt =====
-- pkg/merr: an error from a list of errors, some of them nil.
use nah.Prelude.{Bool, false, ◌≡◌, refl, ◌↔◌, Option, none, some, List, [], ◌∷◌, All, ◌∙◌, ap}
use nah.Error.{
  Error, Errors, joined, nil, cons, Reason, has_reason, first_reason, first_reason_among, or_next,
  is_reason,
}

-- The loop that keeps the errors that are not nil.
unfoldable pub non_nil : List (Option Error) → List Error
non_nil [] = []
non_nil (none ∷ es) = non_nil es
non_nil (some e ∷ es) = e ∷ non_nil es

pub pack : List Error → Errors
pack [] = nil
pack (e ∷ es) = cons e (pack es)

collect : List Error → Option Error
unfolding pack
collect [] = none
collect (e ∷ []) = some e
collect (e ∷ f ∷ es) = some (joined (pack (e ∷ f ∷ es)))

-- merr.NewErrors
unfoldable pub new_errors : List (Option Error) → Option Error
unfolding non_nil collect
new_errors es = collect (non_nil es)

-- The reason that an error, which may be nil, is asked for.
abbrev pub reason_of : Option Error → Option Reason
reason_of none = none
reason_of (some e) = first_reason e

-- The first reason in a list of errors.
abbrev pub first_reason_in : List (Option Error) → Option Reason
first_reason_in [] = none
first_reason_in (e ∷ es) = or_next (reason_of e) (first_reason_in es)

abbrev pub first_reason_of : List Error → Option Reason
first_reason_of [] = none
first_reason_of (e ∷ es) = or_next (first_reason e) (first_reason_of es)

first_reason-pack : (es : List Error) → first_reason_among (pack es) ≡ first_reason_of es
unfolding pack first_reason
first_reason-pack [] = refl
first_reason-pack (e ∷ es) = ap (or_next (first_reason e)) (first_reason-pack es)

or_next-none : (r : Option Reason) → r ≡ or_next r none
or_next-none none = refl
or_next-none (some r) = refl

reason_of-collect : (es : List Error) → reason_of (collect es) ≡ first_reason_of es
unfolding collect first_reason
reason_of-collect [] = refl
reason_of-collect (e ∷ []) = or_next-none (first_reason e)
reason_of-collect (e ∷ f ∷ es) = first_reason-pack (e ∷ f ∷ es)

first_reason_of-non_nil :
    (es : List (Option Error)) → first_reason_of (non_nil es) ≡ first_reason_in es
unfolding non_nil
first_reason_of-non_nil [] = refl
first_reason_of-non_nil (none ∷ es) = first_reason_of-non_nil es
first_reason_of-non_nil (some e ∷ es) = ap (or_next (first_reason e)) (first_reason_of-non_nil es)

-- IsNotFound and the like on an error that may be nil.
abbrev pub reason_in : Reason → Option Error → Bool
reason_in r none = false
reason_in r (some e) = has_reason r e

reason_in-reason_of : (r : Reason) (e : Option Error) → reason_in r e ≡ is_reason r (reason_of e)
unfolding has_reason
reason_in-reason_of r none = refl
reason_in-reason_of r (some e) = refl

collect-none : (es : List Error) → collect es ≡ none → es ≡ []
unfolding collect
collect-none [] h = refl
collect-none (e ∷ []) h = cc
collect-none (e ∷ f ∷ es) h = cc

non_nil-nil : (es : List (Option Error)) → non_nil es ≡ [] → All (λ e. e ≡ none) es
unfolding non_nil
non_nil-nil [] h = tt
non_nil-nil (none ∷ es) h = (refl, non_nil-nil es h)
non_nil-nil (some e ∷ es) h = cc

non_nil-eq_nil : (es : List (Option Error)) → All (λ e. e ≡ none) es → non_nil es ≡ []
unfolding non_nil
non_nil-eq_nil [] h = refl
non_nil-eq_nil (none ∷ es) h = non_nil-eq_nil es h.1
non_nil-eq_nil (some e ∷ es) h = cc h.0

pub new_errors-none : (es : List (Option Error)) → (new_errors es ≡ none) ↔ All (λ e. e ≡ none) es
unfolding new_errors
new_errors-none es =
    (λ h. non_nil-nil es (collect-none (non_nil es) h), λ h. rw (non_nil-eq_nil es h) refl)

-- The error that NewErrors makes of a list is nil exactly when every error of the list is nil, and
-- it is taken for an API error of a reason exactly when that is the reason of the first error of the
-- list, in its order, that has an API status: what follows that error is not looked at.
pub new_errors_lem :
    (es : List (Option Error)) (r : Reason)
    → ((new_errors es ≡ none) ↔ All (λ e. e ≡ none) es)
      × (reason_in r (new_errors es) ≡ is_reason r (first_reason_in es))
unfolding new_errors
new_errors_lem es r = (
  new_errors-none es,
  reason_in-reason_of r (new_errors es)
      ∙ ap (is_reason r) (reason_of-collect (non_nil es) ∙ first_reason_of-non_nil es),
)
