-- ===== src/Conditions.antt =====
-- pkg/conditions/setter.go: a middleware that turns the errors of handlers into a condition.
use nah.Prelude.{
  Text, codes, text_eq, if◌then◌else◌, List, [], Option, none, some, Bool, true, false, ℕ,
}
use nah.Error.{Error, not_found, has_reason}

-- metav1.Condition: a status is true or false; the time of the last transition is opaque.
pub record Condition : Type 0 where
  pub kind : Text
  pub status : Bool
  pub observed_generation : ℕ
  pub reason : Text
  pub message_text : Text
  pub last_transition : Option Text

-- What the middleware reads and changes: the conditions of the object, its generation, and the two
-- attributes of the response. W is the rest of what a handler changes.
pub record Marks (W : Type 0) : Type 0 where
  pub conditions : List Condition
  pub generation : ℕ
  pub existing : Option Condition
  pub errored : Bool
  pub rest : W

abbrev pub controller : Text
controller = codes "Controller"

-- meta.SetStatusCondition and meta.FindStatusCondition are the library's; is_terminal is errors.As on ErrTerminal, with what it
-- finds; reason_of is the name of the Go type of an error, and text_of its text.
module _ (set_condition : Condition → List Condition → List Condition)
    (find_condition : Text → List Condition → Option Condition) (terminal_in : Error → Option Error)
    (reason_of : Error → Text) (text_of : Error → Text) where
  abbrev pub or_missing : Error → Option Error → Option Error
  or_missing e (some t) = some t
  or_missing e none = if has_reason not_found e then some e else none

  -- logErr: the error that becomes a condition
  unfoldable pub logged : Option Error → Option Error
  logged none = none
  logged (some e) = or_missing e (terminal_in e)

  abbrev pub restored : Option Condition → List Condition → List Condition
  restored none cs = cs
  restored (some c) cs = set_condition c cs

  abbrev pub unless_logged : Option Error → Option Error → Option Error
  unless_logged failure (some e) = none
  unless_logged failure none = failure

  module _ {W : Type 0} where
    abbrev pub or_found : Marks W → Option Condition → Marks W
    or_found s (some c) = s
    or_found s none = record s { existing = find_condition controller s.conditions }

    abbrev pub mark : Condition → Marks W → Marks W
    mark c s = record s { conditions = set_condition c (restored s.existing s.conditions) }

    abbrev pub succeeded : Marks W → Condition
    succeeded s = record {
      kind = controller;
      status = true;
      observed_generation = s.generation;
      reason = [];
      message_text = [];
      last_transition = none;
    }

    abbrev pub failed_by : Error → Marks W → Condition
    failed_by e s = record {
      kind = controller;
      status = false;
      observed_generation = s.generation;
      reason = reason_of e;
      message_text = text_of e;
      last_transition = none;
    }

    abbrev pub concluded : Option Error → Option Error → Marks W → Option Error × Marks W
    concluded failure (some e) s = (none, record (mark (failed_by e s) s) { errored = true })
    concluded none none s = (none, mark (succeeded s) s)
    concluded (some e) none s = (some e, s)

    abbrev pub handled_with : Option Error → Marks W → Option Error × Marks W
    handled_with failure s =
        let log = logged failure in
        let s' = or_found s s.existing in
        if s.errored then (unless_logged failure log, s') else concluded failure log s'

    -- ErrorMiddleware around a handler, on an object that has conditions
    unfoldable pub error_middleware :
        (Marks W → Option Error × Marks W) → Marks W → Option Error × Marks W
    unfolding logged
    error_middleware next s = let (failure, s') = next s in handled_with failure s'
