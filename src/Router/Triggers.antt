-- ===== src/Router/Triggers.antt =====
-- pkg/router/trigger.go: which handlers are enqueued when an object changes.
pub mod Effect
pub mod Enqueued
use nah.Prelude.{
  Text, codes, Map, lookup, insert, delete, text_eq, text_discrete, HasEq, ◌==◌, if◌then◌else◌,
  List, [], ◌∷◌, ◌++◌, Option, none, some, Bool, true, false, ◌&&◌, is_some, ℕ, ◌+◌, length,
}
use nah.Kube.{GroupVersionKind, gvk_eq, gvk_discrete, Object}
use nah.Router.Matcher.{ObjectMatcher, matcher_string, matches}

pub record TriggerKey : Type 0 where
  pub name : Text
  pub namespace : Text
  pub gvk : GroupVersionKind

pub record EnqueueTarget : Type 0 where
  pub key : Text
  pub gvk : GroupVersionKind

trigger_key_fields : Discrete TriggerKey
unfolding text_discrete gvk_discrete
trigger_key_fields = hlevel (text_discrete, gvk_discrete)

unfoldable pub trigger_key_discrete : Discrete TriggerKey
unfolding trigger_key_fields
trigger_key_discrete = trigger_key_fields

instance abbrev pub trigger_key_eq : HasEq TriggerKey
trigger_key_eq = record { same = trigger_key_discrete }

target_fields : Discrete EnqueueTarget
unfolding text_discrete gvk_discrete
target_fields = hlevel (text_discrete, gvk_discrete)

unfoldable pub target_discrete : Discrete EnqueueTarget
unfolding target_fields
target_discrete = target_fields

instance abbrev pub target_eq : HasEq EnqueueTarget
target_eq = record { same = target_discrete }

abbrev pub ByKey : Type 0
ByKey = Map Text ObjectMatcher

abbrev pub ByTarget : Type 0
ByTarget = Map EnqueueTarget ByKey

abbrev pub Matchers : Type 0
Matchers = Map GroupVersionKind ByTarget

-- A nil object stands for a removal.
abbrev pub Pending : Type 0
Pending = Map TriggerKey (Option Object)

abbrev pub or_new {ℓ κ} : {K : Type ℓ} {V : Type κ} → Option (Map K V) → Map K V
or_new none = []
or_new (some m) = m

-- What is registered on a kind for a target under the string of a matcher.
abbrev pub registered : Matchers → GroupVersionKind → EnqueueTarget → Text → Option ObjectMatcher
registered ms g t k = lookup k (or_new (lookup t (or_new (lookup g ms))))

-- LoadOrStore: what is stored already stays.
unfoldable pub load_or_store : Text → ObjectMatcher → ByKey → ByKey
load_or_store k mr m = if is_some (lookup k m) then m else insert k mr m

-- triggers.register
unfoldable pub register :
    GroupVersionKind → Text → GroupVersionKind → ObjectMatcher → Matchers → Matchers
unfolding load_or_store
register gvk key target_gvk mr ms =
    let target : EnqueueTarget = record { key = key; gvk = gvk } in
    let by_target = or_new (lookup target_gvk ms) in
    let by_key = or_new (lookup target by_target) in
    insert target_gvk (insert target (load_or_store (matcher_string mr) mr by_key) by_target) ms

-- toKey
unfoldable pub to_key : Text → Text → Text
to_key namespace name = if namespace == [] then name else namespace ++ codes "/" ++ name

-- The key under which a matcher by name alone is stored.
abbrev pub direct_key : TriggerKey → Text
direct_key key =
    matcher_string
      (record { namespace = key.namespace; name = key.name; selector = none; fields = none })

abbrev pub target_of : TriggerKey → EnqueueTarget
target_of key = record { key = to_key key.namespace key.name; gvk = key.gvk }

-- The deletions after the checks: targets that are gone, then the keys of deleteKeys.
unfoldable pub delete_targets : Pending → ByTarget → ByTarget
delete_targets [] ts = ts
delete_targets ((key, none) ∷ pending) ts = delete_targets pending (delete (target_of key) ts)
delete_targets ((key, some obj) ∷ pending) ts = delete_targets pending ts

unfoldable pub delete_keys_of : Pending → GroupVersionKind → List Text
delete_keys_of [] g = []
delete_keys_of ((key, none) ∷ pending) g =
    let rest = delete_keys_of pending g in if key.gvk == g then direct_key key ∷ rest else rest
delete_keys_of ((key, some obj) ∷ pending) g = delete_keys_of pending g

unfoldable pub delete_all : List Text → ByKey → ByKey
delete_all [] m = m
delete_all (k ∷ ks) m = delete_all ks (delete k m)

unfoldable pub delete_in_targets : List Text → ByTarget → ByTarget
unfolding delete_all
delete_in_targets ks [] = []
delete_in_targets ks ((target, m) ∷ ts) = (target, delete_all ks m) ∷ delete_in_targets ks ts

module _ (is_fields : Object → Bool) where
  -- The objects that a matcher without a name enqueues its target for, once each.
  unfoldable pub by_selector :
      GroupVersionKind → EnqueueTarget → ObjectMatcher → Pending → List EnqueueTarget
  by_selector g target mt [] = []
  by_selector g target mt ((key, obj) ∷ pending) =
      let rest = by_selector g target mt pending in
      if key.gvk == g && matches is_fields mt key.namespace key.name obj
      then target ∷ rest
      else rest

  -- The body of the innermost Range of process: the calls of Trigger.
  unfoldable pub check :
      Pending → GroupVersionKind → EnqueueTarget → ObjectMatcher → List EnqueueTarget
  unfolding by_selector
  check pending g target mt =
      if mt.name == []
      then by_selector g target mt pending
      else if is_some
          (lookup (record { name = mt.name; namespace = mt.namespace; gvk = g }) pending)
      then target ∷ []
      else []

  unfoldable pub check_keys :
      Pending → GroupVersionKind → EnqueueTarget → ByKey → List EnqueueTarget
  unfolding check
  check_keys pending g target [] = []
  check_keys pending g target ((k, mt) ∷ m) =
      check pending g target mt ++ check_keys pending g target m

  unfoldable pub check_targets : Pending → GroupVersionKind → ByTarget → List EnqueueTarget
  unfolding check_keys
  check_targets pending g [] = []
  check_targets pending g ((target, m) ∷ ts) =
      check_keys pending g target m ++ check_targets pending g ts

  -- triggers.process: the calls of Trigger in order, and the matchers that stay.
  unfoldable pub process : Pending → Matchers → List EnqueueTarget × Matchers
  unfolding check_targets delete_targets delete_keys_of delete_in_targets
  process pending [] = ([], [])
  process pending ((g, ts) ∷ ms) =
      let (calls, rest) = process pending ms in
      (
        check_targets pending g ts ++ calls,
        (g, delete_in_targets (delete_keys_of pending g) (delete_targets pending ts)) ∷ rest,
      )
