-- ===== src/Router/Registry.antt =====
-- pkg/router/handlers.go: the handlers of each kind, and a run of all of them.
use nah.Prelude.{
  Map, lookup, insert, List, [], ◌∷◌, ◌++◌, Option, none, some, Bool, true, false, not, ◌≡◌, refl,
  All,
}
use nah.Error.{Error}
use nah.Error.Merr.{new_errors, new_errors-none}
use nah.Kube.{GroupVersionKind, gvk_eq}
use nah.Router.Handler.{Request, Scope, Handler}

abbrev pub Registry : Type 0 → Type 0
Registry W = Map GroupVersionKind (List (Handler W))

module _ {W : Type 0} where
  abbrev pub or_no_handlers : Option (List (Handler W)) → List (Handler W)
  or_no_handlers none = []
  or_no_handlers (some hs) = hs

  -- handlers.AddHandler
  unfoldable pub add_handler : GroupVersionKind → Handler W → Registry W → Registry W
  add_handler gvk h r = insert gvk (or_no_handlers (lookup gvk r) ++ h ∷ []) r

  abbrev pub is_empty : List (Handler W) → Bool
  is_empty [] = true
  is_empty (h ∷ hs) = false

  -- handlers.Handles
  unfoldable pub handles : Registry W → Request → Bool
  handles r req = not (is_empty (or_no_handlers (lookup req.gvk r)))

  -- The loop of handlers.Handle: the error of every handler, in order, and what they left.
  unfoldable pub run_all : List (Handler W) → Request → Scope W → List (Option Error) × Scope W
  run_all [] req s = ([], s)
  run_all (h ∷ hs) req s = let (e, s₁) = h req s in let (es, s₂) = run_all hs req s₁ in (e ∷ es, s₂)

  -- handlers.Handle
  unfoldable pub handle_all : Registry W → Request → Scope W → Option Error × Scope W
  unfolding run_all
  handle_all r req s =
      let (es, s') = run_all (or_no_handlers (lookup req.gvk r)) req s in (new_errors es, s')

  -- The scopes in which the handlers run, one behind the other.
  abbrev pub Runs : List (Handler W) → Request → Scope W → Scope W → Type 0
  Runs [] req s s' = s ≡ s'
  Runs (h ∷ hs) req s s' = ((h req s).0 ≡ none) × Runs hs req (h req s).1 s'

  run_all-Runs :
      (hs : List (Handler W)) (req : Request) (s : Scope W)
      → All (λ e. e ≡ none) (run_all hs req s).0
      → Runs hs req s (run_all hs req s).1
  unfolding run_all
  run_all-Runs [] req s h = refl
  run_all-Runs (g ∷ hs) req s h = (h.0, run_all-Runs hs req (g req s).1 h.1)

  -- Handle returns no error only if every handler of the kind ran, one behind the other on what the
  -- one before left, and none of them returned an error.
  pub handle_all-Runs :
      (r : Registry W) (req : Request) (s : Scope W)
      → (handle_all r req s).0 ≡ none
      → Runs (or_no_handlers (lookup req.gvk r)) req s (handle_all r req s).1
  unfolding handle_all
  handle_all-Runs r req s h =
      let hs = or_no_handlers (lookup req.gvk r) in
      run_all-Runs hs req s ((new_errors-none (run_all hs req s).0).0 h)
