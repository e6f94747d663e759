-- ===== src/Router/Handle/Outcome.antt =====
-- pkg/router/handler.go: what a run of handle leaves behind.
use nah.Prelude.{
  Text, lookup, lookup-insert, ◌==◌, if◌then◌else◌, Option, none, some, Bool, ◌≡◌, refl, arith, ap,
  is_some, ◌∙◌,
}
use nah.Error.{Error}
use nah.Kube.{gvk_eq, GroupVersionKind, Object}
use nah.Router.Handler.{Request, Scope}
use nah.Router.Triggers.{TriggerKey, trigger_key_eq, Pending}
use nah.Router.Handle.{
  Setup, handle, new_request, first_scope, run_handlers, trigger_after, trigger,
  unregister_and_trigger, trigger_key, save_and_retry, finish, after_handlers,
}

module _ {W L : Type 0} (setup : Setup W L) where
  finish-pending :
      (req : Request) (pending : Pending) (e : Option Error) (s : Scope W)
      → (finish setup req pending (e, s)).pending ≡ pending
  finish-pending req pending none s = refl
  finish-pending req pending (some e) s = refl

  -- What the event passes on to the triggers for its own key.
  abbrev pub passed_on :
      Option Object → Bool → Option Object → Option (Option Object) → Option (Option Object)
  passed_on none from_trigger left before = some none
  passed_on (some o) from_trigger left before = if from_trigger then before else some left

  lookup-trigger_after :
      (unmodified : Option Object) (req : Request) (left : Option Object) (pending : Pending)
      (j : TriggerKey)
      → lookup j (trigger_after unmodified req left pending) ≡ (
          if trigger_key req == j
          then passed_on unmodified req.from_trigger left (lookup j pending)
          else lookup j pending)
  unfolding trigger_after trigger unregister_and_trigger
  lookup-trigger_after none req left pending j = lookup-insert (trigger_key req) j none pending
  lookup-trigger_after (some o) req left pending j =
      ground (arith, lookup-insert (trigger_key req) j left pending)

  after_handlers-pending :
      (unmodified : Option Object) (req : Request) (pending : Pending) (e : Option Error)
      (s : Scope W) (j : TriggerKey)
      → lookup j (after_handlers setup unmodified req pending (e, s)).pending ≡ (
          if is_some e
          then lookup j pending
          else if trigger_key req == j
          then passed_on unmodified req.from_trigger s.object (lookup j pending)
          else lookup j pending)
  after_handlers-pending unmodified req pending (some e) s j = refl
  after_handlers-pending unmodified req pending none s j =
      let r = save_and_retry setup unmodified req s in
      ap (lookup j) (finish-pending req (trigger_after unmodified req s.object pending) r.0 r.1)
      ∙ lookup-trigger_after unmodified req s.object pending j

  -- handle changes what waits for the triggers at no other key than that of its event, and not at
  -- all if the handlers fail for good. Otherwise an object that is gone waits there as a removal;
  -- the object as the handlers left it waits there if the event is no trigger; and a trigger
  -- leaves what waited, so that triggers do not cascade.
  pub handle-pending :
      (gvk : GroupVersionKind) (key : Text) (unmodified : Option Object) (from_trigger : Bool)
      (pending : Pending) (w : W) (j : TriggerKey)
      → let req = new_request gvk key from_trigger in
        let (e, s) = run_handlers setup req (first_scope setup unmodified w) in
        lookup j (handle setup gvk key unmodified from_trigger pending w).pending ≡ (
          if is_some e
          then lookup j pending
          else if trigger_key req == j
          then passed_on unmodified from_trigger s.object (lookup j pending)
          else lookup j pending)
  unfolding handle new_request
  handle-pending gvk key unmodified from_trigger pending w j =
      let req = new_request gvk key from_trigger in
      let r = run_handlers setup req (first_scope setup unmodified w) in
      after_handlers-pending unmodified req pending r.0 r.1 j
