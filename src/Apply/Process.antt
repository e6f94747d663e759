-- ===== src/Apply/Process.antt =====
-- pkg/apply/desiredset_process.go: process, which brings the objects of one kind to what is desired,
-- with list, newObj of a list and the calls of desiredset_crud.go. The maps and lists that its
-- closures change are the record Progress.
pub mod Tracked
pub mod Steps
pub mod Kept
pub mod Whole
use nah.Prelude.{
  Text, codes, lookup, insert, text_eq, ◌==◌, if◌then◌else◌, List, [], ◌∷◌, ◌++◌, Option, none,
  some, Bool, true, false, not, ◌&&◌, ◌||◌,
}
use nah.Error.{
  Error, message, api, err_replace, err_owner_not_found, err_ignore, joined, wrapped, Result, ok,
  err, ◌>>=◌, already_exists, not_found, has_reason,
}
use nah.Error.Merr.{new_errors}
use nah.Kube.{GroupVersionKind, Object, Client, at}
use nah.Apply.ObjectSet.{
  ObjectKey, object_key_eq, ObjectByKey, ObjectSet, key_of, key_string, objects_of,
}
use nah.Apply.Labels.{annotation_prune, annotation_create, annotation_update}
use nah.Apply.Compare.{should, compare_sets}
use nah.Apply.Namespace.{adjust_namespace, clear_namespace}
use nah.Apply.Owning.{assign_owner_reference}
use nah.Apply.Takeover.{refuses_takeover, filter_cross_version}
use nah.Apply.Orphans.{Known, new_obj}
use nah.Apply.Prepare.{prepare_object_for_create}
use nah.Apply.Update.{Updates, State, on_server, compare_objects}

-- The fields of apply with what its client's scheme and mapper answer. A selector is the value that
-- the hash label has to have; list_objects is the call List, in a namespace.
pub record Applier (V : Type 0) : Type 0 where
  pub updates : Updates V
  pub client : Client V
  pub list_objects : GroupVersionKind → Text → Text → V → Result (List Object) × V
  pub client_scheme_new : GroupVersionKind → Known
  pub gvk_for_object : Object → Result GroupVersionKind
  pub is_namespaced : GroupVersionKind → Result Bool
  pub group_version : GroupVersionKind → Text
  pub gvk_string : GroupVersionKind → Text
  pub sha1_hex : Text → Text
  pub valid_owner_changes : List Text
  pub default_namespace : Text
  pub lister_namespace : Text
  pub owner : Option Object
  pub no_prune : Bool
  pub debug_id : Text

pub record Progress (V : Type 0) : Type 0 where
  pub objs : ObjectByKey
  pub existing : ObjectByKey
  pub to_update : List ObjectKey
  pub to_replace : List ObjectKey
  pub state : State V

-- err == ErrReplace
abbrev pub is_err_replace : Error → Bool
is_err_replace err_replace = true
is_err_replace (message t) = false
is_err_replace (api r) = false
is_err_replace err_owner_not_found = false
is_err_replace err_ignore = false
is_err_replace (wrapped t e) = false
is_err_replace (joined es) = false

-- addObjectToMap on every item
unfoldable pub add_objects : List Object → ObjectByKey → ObjectByKey
add_objects [] objs = objs
add_objects (obj ∷ items) objs = add_objects items (insert (key_of obj) obj objs)

abbrev pub Step : Type 0 → Type 0
Step V = ObjectKey → Progress V → Option Error × Progress V

-- for _, k := range keys { errs = append(errs, step(k)) }
unfoldable pub run_steps :
    {V : Type 0} → Step V → List ObjectKey → Progress V → List (Option Error) × Progress V
run_steps step [] p = ([], p)
run_steps step (k ∷ ks) p =
    let (e, p') = step k p in let (es, p'') = run_steps step ks p' in (e ∷ es, p'')

module _ {V : Type 0} (a : Applier V) (gvk : GroupVersionKind) where
  abbrev pub failed_at : Text → ObjectKey → Error → Error
  failed_at what k e =
      wrapped
        (what
          ++ key_string k
          ++ codes " "
          ++ a.gvk_string gvk
          ++ codes " for "
          ++ a.debug_id
          ++ codes ": ")
        e

  -- Under ensure the desired objects themselves are changed.
  abbrev pub ensured : ObjectKey → Object → Progress V → Progress V
  ensured k obj p = if a.updates.ensure then record p { objs = insert k obj p.objs } else p

  abbrev pub taken_over : ObjectKey → Object → Object → Progress V → Progress V
  taken_over k found obj p = record p {
    to_update = if should obj annotation_update then p.to_update ++ k ∷ [] else p.to_update;
    existing = insert k found p.existing;
  }

  abbrev pub take_over :
      ObjectKey → Object → Error → Progress V → Result Object × State V → Option Error × Progress V
  take_over k obj e p (err get_error, s) =
      (some (failed_at (codes "failed to create ") k e), record p { state = s })
  take_over k obj e p (ok found, s) =
      if refuses_takeover a.valid_owner_changes found obj
      then (
        some (failed_at (codes "failed to update existing owned object ") k e),
        record p { state = s },
      )
      else (none, taken_over k found obj (record p { state = s }))

  abbrev pub created :
      ObjectKey → Object → Progress V → Result Object × State V → Option Error × Progress V
  created k obj p (ok answer, s) = (none, ensured k answer (record p { state = s }))
  created k obj p (err e, s) =
      if has_reason already_exists e
      then take_over k obj e p (on_server (a.client.get obj.go_type k.namespace k.name) s)
      else (some (failed_at (codes "failed to create ") k e), record p { state = s })

  abbrev pub create_prepared : ObjectKey → Progress V → Result Object → Option Error × Progress V
  create_prepared k p (err e) = (some (failed_at (codes "failed to prepare create ") k e), p)
  create_prepared k p (ok obj) =
      created k obj (ensured k obj p) (on_server (a.client.create obj) p.state)

  abbrev pub create_at : ObjectKey → Progress V → Option Object → Option Error × Progress V
  create_at k p none = (none, p)
  create_at k p (some obj) =
      create_prepared k p (prepare_object_for_create a.updates.codec gvk obj (not a.updates.ensure))

  -- createF; every key that it is called for is one of objs
  unfoldable pub create_step : Step V
  unfolding prepare_object_for_create refuses_takeover should lookup insert
  create_step k p = create_at k p (lookup k p.objs)

  abbrev pub deleted : ObjectKey → Progress V → Option Error × State V → Option Error × Progress V
  deleted k p (none, s) = (none, record p { state = s })
  deleted k p (some e, s) =
      (some (failed_at (codes "failed to delete ") k e), record p { state = s })

  -- deleteF
  unfoldable pub delete_step : Step V
  delete_step k p = deleted k p (on_server (a.client.delete gvk k.namespace k.name) p.state)

  abbrev pub may_replace : Object → Object → Bool
  may_replace old new =
      (at annotation_update new.annotations == codes "true")
      || (should old annotation_prune && should old annotation_create)

  abbrev pub update_error :
      ObjectKey → Object → Object → Progress V → Option Error → Option Error × Progress V
  update_error k old new p none = (none, p)
  update_error k old new p (some e) =
      if is_err_replace e
      then (
        none,
        if may_replace old new then record p { to_replace = p.to_replace ++ k ∷ [] } else p,
      )
      else (some (failed_at (codes "failed to update ") k e), p)

  abbrev pub updated :
      ObjectKey
      → Object
      → Progress V
      → (Option Error × Object) × State V
      → Option Error × Progress V
  updated k old p ((e, new), s) = update_error k old new (ensured k new (record p { state = s })) e

  abbrev pub update_at :
      ObjectKey → Progress V → Option Object → Option Object → Option Error × Progress V
  update_at k p (some old) (some new) =
      updated k old p (compare_objects a.updates gvk old new p.state)
  update_at k p none (some new) = (none, p)
  update_at k p (some old) none = (none, p)
  update_at k p none none = (none, p)

  -- updateF; every key that it is called for is one of existing and of objs
  unfoldable pub update_step : Step V
  unfolding compare_objects should lookup insert
  update_step k p = update_at k p (lookup k p.existing) (lookup k p.objs)

  -- The five loops: an object that createF finds to exist is updated behind the others, but one
  -- that is found when it is created again, after it was replaced, is not.
  unfoldable pub carry_out :
      List ObjectKey → List ObjectKey → Progress V → Option Error × Progress V
  unfolding run_steps create_step delete_step update_step new_errors
  carry_out to_create to_delete p₀ =
      let (creations, p₁) = run_steps create_step to_create p₀ in
      let (updates, p₂) = run_steps update_step p₁.to_update p₁ in
      let (deletions, p₃) = run_steps delete_step (if a.no_prune then [] else to_delete) p₂ in
      let (removals, p₄) = run_steps delete_step p₃.to_replace p₃ in
      let (renewals, p₅) = run_steps create_step p₄.to_replace p₄ in
      (new_errors (creations ++ updates ++ deletions ++ removals ++ renewals), p₅)

  abbrev pub added : Result (List Object) × State V → Result ObjectByKey × State V
  added (err e, s) = (err e, s)
  added (ok items, s) = (ok (add_objects items []), s)

  abbrev pub list_known : Text → State V → Option Error → Result ObjectByKey × State V
  list_known selector s (some e) = (err e, s)
  list_known selector s none = added (
      on_server
        (a.list_objects (record gvk { kind = gvk.kind ++ codes "List" }) a.lister_namespace
          selector)
        s)

  -- listBySelector
  unfoldable pub list_by_selector : Text → State V → Result ObjectByKey × State V
  unfolding new_obj add_objects
  list_by_selector selector s =
      list_known selector s
        (new_obj (a.client_scheme_new (record gvk { kind = gvk.kind ++ codes "List" })))

  abbrev pub found_or_not :
      ObjectKey
      → ObjectByKey
      → (ObjectByKey → State V → Result ObjectByKey × State V)
      → Result Object × State V
      → Result ObjectByKey × State V
  found_or_not k result rest (ok obj, s) = rest (insert k obj result) s
  found_or_not k result rest (err e, s) =
      if has_reason not_found e then rest result s else (err e, s)

  -- The loop of list: what is desired is read one by one.
  unfoldable pub list_each : ObjectByKey → ObjectByKey → State V → Result ObjectByKey × State V
  list_each [] result s = (ok result, s)
  list_each ((k, v) ∷ objs) result s =
      found_or_not k result (list_each objs)
        (on_server (a.client.get v.go_type k.namespace k.name) s)

  -- list
  unfoldable pub list : Option Text → ObjectByKey → State V → Result ObjectByKey × State V
  unfolding list_by_selector list_each
  list none objs s = list_each objs [] s
  list (some selector) objs s = list_by_selector selector s

  abbrev pub owned : Option Object → ObjectByKey → Result ObjectByKey
  owned none objs = ok objs
  owned (some owner) objs =
      assign_owner_reference a.is_namespaced a.gvk_for_object a.group_version (some owner) gvk objs

  -- The start of process: the desired objects with their owner and namespaces
  unfoldable pub desired : ObjectSet → Result ObjectByKey
  unfolding objects_of assign_owner_reference adjust_namespace clear_namespace
  desired all_objs = do
    namespaced ← a.is_namespaced gvk
    objs ← owned a.owner (objects_of all_objs gvk)
    ok (if namespaced then adjust_namespace a.default_namespace objs else clear_namespace objs)

  abbrev pub began : ObjectByKey → ObjectByKey → List ObjectKey → State V → Progress V
  began objs existing to_update s = record {
    objs = objs;
    existing = existing;
    to_update = to_update;
    to_replace = [];
    state = s;
  }

  -- The part of process behind the list of what exists.
  unfoldable pub sync :
      ObjectSet → ObjectByKey → ObjectByKey → State V → (Option Error × ObjectByKey) × State V
  unfolding compare_sets filter_cross_version carry_out
  sync all_objs objs existing s =
      let (to_create, to_delete, to_update) = compare_sets a.sha1_hex existing objs in
      let (e, p) =
        carry_out to_create (filter_cross_version a.default_namespace all_objs gvk to_delete)
          (began objs existing to_update s) in
      ((e, p.objs), p.state)

  abbrev pub sync_listed :
      ObjectSet
      → ObjectByKey
      → Result ObjectByKey × State V
      → (Option Error × ObjectByKey) × State V
  sync_listed all_objs objs (err e, s) = (
    (
      some (
          wrapped
            (codes "failed to list "
              ++ a.gvk_string gvk
              ++ codes " for "
              ++ a.debug_id
              ++ codes ": ")
            e),
      objs,
    ),
    s,
  )
  sync_listed all_objs objs (ok existing, s) = sync all_objs objs existing s

  abbrev pub process_desired :
      Option Text
      → ObjectSet
      → State V
      → Result ObjectByKey
      → (Option Error × ObjectByKey) × State V
  process_desired selector all_objs s (err e) = ((some e, objects_of all_objs gvk), s)
  process_desired selector all_objs s (ok objs) = sync_listed all_objs objs (list selector objs s)

  -- process: its error, and the desired objects of the kind as they are afterwards
  unfoldable pub process :
      Option Text → ObjectSet → State V → (Option Error × ObjectByKey) × State V
  unfolding desired list sync
  process selector all_objs s = process_desired selector all_objs s (desired all_objs)
