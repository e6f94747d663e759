-- ===== src/Error/Examples.antt =====
-- The theorems of pkg/merr at concrete inputs.
use nah.Prelude.{◌≡◌, ◌↔◌, Option, none, some, List, [], ◌∷◌, All, false, refl}
use nah.Error.{
  Error, not_found, conflict, api, is_reason, has_reason, first_reason, reason_discrete,
}
use nah.Error.Merr.{new_errors, new_errors_lem, reason_in, first_reason_in, non_nil}

abbrev mixed : List (Option Error)
mixed = none ∷ some (api conflict) ∷ none ∷ some (api not_found) ∷ []

new_errors_lem_example :
    ((new_errors mixed ≡ none) ↔ All (λ e. e ≡ none) mixed)
    × (reason_in not_found (new_errors mixed) ≡ is_reason not_found (first_reason_in mixed))
new_errors_lem_example = new_errors_lem mixed not_found

-- A conflict before it hides that an object was not found.
conflict_first : reason_in not_found (new_errors mixed) ≡ false
unfolding new_errors non_nil has_reason first_reason reason_discrete
conflict_first = refl
