-- ===== src/Runtime/SharedHandler.antt =====
-- pkg/runtime/sharedhandler.go: the handlers that share a controller, their registration and removal,
-- and a run of all of them on one key.
pub mod Ids
use nah.Prelude.{
  Text, text_eq, nat_eq, ◌==◌, if◌then◌else◌, List, [], ◌∷◌, ◌++◌, Option, none, some, Bool, true,
  false, not, ℕ, ◌+◌, ◌%◌, ◌^◌,
}
use nah.Error.{Error, is_ignore}
use nah.Kube.{Object}

-- SharedControllerHandler.OnChange: an object that may be nil, and an error.
abbrev pub OnChange : Type 0 → Type 0
OnChange W = Text → Option Object → W → Option Object × Option Error × W

pub record HandlerEntry (W : Type 0) : Type 0 where
  pub id : ℕ
  pub name : Text
  pub handler : OnChange W

pub record SharedHandler (W : Type 0) : Type 0 where
  pub id_counter : ℕ
  pub handlers : List (HandlerEntry W)

-- atomic.AddInt64(&h.idCounter, 1), on the bits of an int64
abbrev pub next_id : ℕ → ℕ
next_id n = (n + 1) % 2 ^ 64

pub record HandlerError : Type 0 where
  pub handler_name : Text
  pub cause : Error

-- What errorList.ToErr returns, if it is no nil error.
pub data SharedError : Type 0 where
  single : HandlerError → SharedError
  several : List HandlerError → SharedError

unfoldable pub to_err : List HandlerError → Option SharedError
to_err [] = none
to_err (e ∷ []) = some (single e)
to_err (e ∷ f ∷ es) = some (several (e ∷ f ∷ es))

-- An error that counts, of the handler of a name
abbrev pub reported : Text → Option Error → List HandlerError
reported name none = []
reported name (some e) =
    if not (is_ignore e) then record { handler_name = name; cause = e } ∷ [] else []

-- An object with a UID takes the place of the one before: an empty one does not.
abbrev pub replaced : Option Object → Option Object → Option Object
replaced obj none = obj
replaced obj (some new) = if not (new.uid == []) then some new else obj

module _ {W : Type 0} where
  -- SharedHandler.Register
  unfoldable pub register : Text → OnChange W → SharedHandler W → SharedHandler W
  register name handler h =
      let id = next_id h.id_counter in
      record {
        id_counter = id;
        handlers = h.handlers ++ record { id = id; name = name; handler = handler } ∷ [];
      }

  -- The loop that runs when the context of a registration is done
  unfoldable pub delete_id : ℕ → List (HandlerEntry W) → List (HandlerEntry W)
  delete_id id [] = []
  delete_id id (e ∷ es) = let rest = delete_id id es in if e.id == id then es else e ∷ rest

  unfoldable pub unregister : ℕ → SharedHandler W → SharedHandler W
  unfolding delete_id
  unregister id h = record h { handlers = delete_id id h.handlers }

  unfoldable pub run_entries :
      List (HandlerEntry W) → Text → Option Object → W → List HandlerError × W
  unfolding is_ignore
  run_entries [] key obj w = ([], w)
  run_entries (e ∷ es) key obj w =
      let (new, failure, w₁) = e.handler key obj w in
      let (errs, w₂) = run_entries es key (replaced obj new) w₁ in
      (reported e.name failure ++ errs, w₂)

  -- SharedHandler.OnChange
  unfoldable pub on_change : SharedHandler W → Text → Option Object → W → Option SharedError × W
  unfolding run_entries to_err
  on_change h key obj w = let (errs, w') = run_entries h.handlers key obj w in (to_err errs, w')
